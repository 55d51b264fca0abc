-- ===== src/Settings/RoundTrip.antt =====
-- agent/src/config.c: `leo_config_load` reads back what `leo_config_save` wrote.
use leo_one.Prelude.{
  ◌==◌, if◌then◌else◌, length, all, All, length-append, take-of-le, Bytes, bytes, str_eq, ℕ, ◌≤◌,
  ◌<◌, ◌≡◌, refl, sym, ap, ◌∙◌, true, not, some, List, [], ◌∷◌, ◌++◌, append_assoc, arith,
}
use leo_one.Prelude.Decimal.{print_int, skip_spaces, IsInt, atoi-print_int}
use leo_one.Types.{Config, ok, err_config}
use leo_one.Settings.{
  read_lines, c_string, trim_end, trim, key_value, set_field, set_int, set_fields, set_by, set_line,
  set_lines, blank, is_valid, parse_text, load, entry, heading, settings, entries, config_text,
  save,
}
use leo_one.Settings.Lines.{flatten, IsLine, with_newlines, read_lines-with_newlines}
use leo_one.Settings.Values.{
  IsKey, IsValue, line_of, line_of-IsLine, key_value-line_of, print_int-IsValue,
}

abbrev lines_of : List (Bytes × Bytes) → List Bytes
lines_of [] = []
lines_of (s ∷ rest) = line_of s ∷ lines_of rest

abbrev first_comment : Bytes
first_comment = bytes "# Leo-One Agent — configuration générée automatiquement"

abbrev second_comment : Bytes
second_comment = bytes "# Ne pas modifier manuellement sauf agent_id et ws_endpoint"

abbrev all_lines : List (Bytes × Bytes) → List Bytes
all_lines kvs = first_comment ∷ second_comment ∷ [] ∷ lines_of kvs

abbrev IsSetting : Bytes × Bytes → Type 0
IsSetting (k, v) = IsKey k × ((length k ≤ 100) × IsValue 511 v)

IsLine-of_test : (s : Bytes) → all (λ c. not (c == b'\n')) s ≡ true → IsLine s
IsLine-of_test [] h = tt
IsLine-of_test (c ∷ s) h = (λ e. ground arith, IsLine-of_test s (ground arith))

entry-line_of : (k v s : Bytes) → entry k v ++ s ≡ (line_of (k, v) ++ (b'\n' ∷ [])) ++ s
entry-line_of k v s = ap (λ t. t ++ s) (sym (append_assoc k (b'=' ∷ v) (b'\n' ∷ [])))

entries-lines_of :
    (kvs : List (Bytes × Bytes)) → entries kvs ≡ flatten (with_newlines (lines_of kvs))
unfolding entries
entries-lines_of [] = refl
entries-lines_of ((k, v) ∷ rest) =
    ap (◌++◌ (entry k v)) (entries-lines_of rest)
    ∙ entry-line_of k v (flatten (with_newlines (lines_of rest)))

lines_of-fit :
    (kvs : List (Bytes × Bytes))
    → All IsSetting kvs
    → All (λ l. IsLine l × (length l < 1023)) (lines_of kvs)
lines_of-fit [] h = tt
lines_of-fit (([], v) ∷ rest) h = absurd h.0.0
lines_of-fit ((c ∷ k, v) ∷ rest) h = (
  (
    line_of-IsLine (c ∷ k) v h.0.0 h.0.1.1,
    omega (arith, length-append (c ∷ k) (b'=' ∷ v), h.0.1.0, h.0.1.1.1.1.1),
  ),
  lines_of-fit rest h.1,
)

abbrev set_all : Config → List (Bytes × Bytes) → Config
set_all cfg [] = cfg
set_all cfg ((k, v) ∷ rest) = set_all (set_fields cfg k v) rest

set_line-line_of :
    (cfg : Config) (k v : Bytes)
    → IsKey k
    → IsValue 511 v
    → set_line cfg (line_of (k, v) ++ (b'\n' ∷ [])) ≡ set_fields cfg k v
unfolding set_line set_by
set_line-line_of cfg k v h w = ap (set_by cfg) (key_value-line_of k v h w)

set_lines-lines_of :
    (cfg : Config) (kvs : List (Bytes × Bytes))
    → All IsSetting kvs
    → set_lines cfg (with_newlines (lines_of kvs)) ≡ set_all cfg kvs
unfolding set_lines set_line set_by
set_lines-lines_of cfg [] h = refl
set_lines-lines_of cfg ((k, v) ∷ rest) h =
    ap (λ c. set_lines c (with_newlines (lines_of rest))) (set_line-line_of cfg k v h.0.0 h.0.1.1)
    ∙ set_lines-lines_of (set_fields cfg k v) rest h.1

-- What the file can hold: nine values within their buffers, and two numbers of 32 bits.
abbrev pub CanSave : Config → Type 0
CanSave cfg =
    (IsValue 36 cfg.agent_id × (IsValue 36 cfg.tenant_id × IsValue 511 cfg.ws_endpoint))
    × ((IsValue 255 cfg.hostname × (IsValue 31 cfg.os_name × IsValue 127 cfg.os_version))
        × ((IsValue 15 cfg.arch × (IsValue 36 cfg.hardware_id × IsValue 64 cfg.ca_fingerprint))
            × (IsInt cfg.metrics_interval_sec × IsInt cfg.heartbeat_interval_sec)))

IsValue-weaken : (m n : ℕ) (v : Bytes) → m ≤ n → IsValue m v → IsValue n v
IsValue-weaken m n v h w = (w.0, (w.1.0, (w.1.1.0, omega (arith, w.1.1.1, h))))

set_all-settings : (cfg : Config) → CanSave cfg → set_all blank (settings cfg) ≡ cfg
unfolding set_fields set_field set_int str_eq
set_all-settings cfg h =
    rw
      (
        take-of-le 36 cfg.agent_id h.0.0.1.1.1,
        take-of-le 36 cfg.tenant_id h.0.1.0.1.1.1,
        take-of-le 511 cfg.ws_endpoint h.0.1.1.1.1.1,
        take-of-le 255 cfg.hostname h.1.0.0.1.1.1,
        take-of-le 31 cfg.os_name h.1.0.1.0.1.1.1,
        take-of-le 127 cfg.os_version h.1.0.1.1.1.1.1,
        take-of-le 15 cfg.arch h.1.1.0.0.1.1.1,
        take-of-le 36 cfg.hardware_id h.1.1.0.1.0.1.1.1,
        take-of-le 64 cfg.ca_fingerprint h.1.1.0.1.1.1.1.1,
        atoi-print_int cfg.metrics_interval_sec h.1.1.1.0,
        atoi-print_int cfg.heartbeat_interval_sec h.1.1.1.1,
      )
      refl

settings-IsSetting : (cfg : Config) → CanSave cfg → All IsSetting (settings cfg)
settings-IsSetting cfg h = (
  (refl, (omega arith, IsValue-weaken 36 511 cfg.agent_id (omega arith) h.0.0)),
  (
    (refl, (omega arith, IsValue-weaken 36 511 cfg.tenant_id (omega arith) h.0.1.0)),
    (
      (refl, (omega arith, IsValue-weaken 511 511 cfg.ws_endpoint (omega arith) h.0.1.1)),
      (
        (refl, (omega arith, IsValue-weaken 255 511 cfg.hostname (omega arith) h.1.0.0)),
        (
          (refl, (omega arith, IsValue-weaken 31 511 cfg.os_name (omega arith) h.1.0.1.0)),
          (
            (refl, (omega arith, IsValue-weaken 127 511 cfg.os_version (omega arith) h.1.0.1.1)),
            (
              (refl, (omega arith, IsValue-weaken 15 511 cfg.arch (omega arith) h.1.1.0.0)),
              (
                (
                  refl,
                  (omega arith, IsValue-weaken 36 511 cfg.hardware_id (omega arith) h.1.1.0.1.0),
                ),
                (
                  (
                    refl,
                    (
                      omega arith,
                      IsValue-weaken 64 511 cfg.ca_fingerprint (omega arith) h.1.1.0.1.1,
                    ),
                  ),
                  (
                    (
                      refl,
                      (
                        omega arith,
                        IsValue-weaken 21 511 (print_int cfg.metrics_interval_sec) (omega arith)
                            (print_int-IsValue cfg.metrics_interval_sec),
                      ),
                    ),
                    (
                      (
                        refl,
                        (
                          omega arith,
                          IsValue-weaken 21 511 (print_int cfg.heartbeat_interval_sec) (omega arith)
                              (print_int-IsValue cfg.heartbeat_interval_sec),
                        ),
                      ),
                      tt,
                    ),
                  ),
                ),
              ),
            ),
          ),
        ),
      ),
    ),
  ),
)

config_text-all_lines :
    (cfg : Config) → config_text cfg ≡ flatten (with_newlines (all_lines (settings cfg)))
unfolding config_text
config_text-all_lines cfg = ap (◌++◌ heading) (entries-lines_of (settings cfg))

length-with_newlines : (ls : List Bytes) → length ls ≤ length (flatten (with_newlines ls))
length-with_newlines [] = omega arith
length-with_newlines (l ∷ ls) = omega (
  arith,
  length-append (l ++ (b'\n' ∷ [])) (flatten (with_newlines ls)),
  length-append l (b'\n' ∷ []),
  length-with_newlines ls,
)

comments_skipped :
    (kvs : List (Bytes × Bytes))
    → set_lines blank (with_newlines (all_lines kvs))
      ≡ set_lines blank (with_newlines (lines_of kvs))
unfolding set_lines set_line set_by key_value c_string trim skip_spaces trim_end
comments_skipped kvs = refl

parse_text-config_text : (cfg : Config) → CanSave cfg → parse_text (config_text cfg) ≡ cfg
unfolding parse_text
parse_text-config_text cfg h =
    let lines = all_lines (settings cfg) in
    let text = config_text-all_lines cfg in
    let fit : All (λ l. IsLine l × (length l < 1023)) lines = (
      (IsLine-of_test first_comment refl, omega arith),
      (
        (IsLine-of_test second_comment refl, omega arith),
        ((tt, omega arith), lines_of-fit (settings cfg) (settings-IsSetting cfg h)),
      ),
    ) in
    ap (λ t. set_lines blank (read_lines 1023 (length t) t)) text
    ∙ ap (set_lines blank) (
        read_lines-with_newlines 1023 (length (flatten (with_newlines lines))) lines fit
          (length-with_newlines lines))
    ∙ comments_skipped (settings cfg)
    ∙ set_lines-lines_of blank (settings cfg) (settings-IsSetting cfg h)
    ∙ set_all-settings cfg h

-- What a saved file gives, valid or not.
pub load-config_text :
    (cfg old : Config)
    → CanSave cfg
    → load (some (config_text cfg)) old ≡ (if is_valid cfg then ok else err_config, cfg)
unfolding load
load-config_text cfg old h =
    ap (λ c. (if is_valid c then ok else err_config, c)) (parse_text-config_text cfg h)

-- A valid configuration that the file can hold, and that reaches the file as a whole, is read back as it
-- was saved, whatever stood in the structure that it is read into.
pub load-save :
    (room : ℕ) (cfg old : Config)
    → CanSave cfg
    → length (config_text cfg) ≤ room
    → is_valid cfg ≡ true
    → load (save (some room) cfg).1 old ≡ (ok, cfg)
unfolding load save
load-save room cfg old h whole valid =
    rw (take-of-le room (config_text cfg) whole, parse_text-config_text cfg h, valid) refl
