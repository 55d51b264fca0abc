-- ===== src/Settings/Fits.antt =====
-- agent/src/config.c: the buffers of the structure, and the keys that a file must have.
use leo_one.Prelude.{
  length, take, All, length-take, Bytes, bytes, str_eq, ℕ, ◌≤◌, ◌≡◌, refl, ap, ◌∙◌, ◌≢◌, ◌↔◌, ◌⊎◌,
  inl, inr, true, false, Option, none, some, List, [], ◌∷◌, arith,
}
use leo_one.Types.{Config, ok, err_config}
use leo_one.Settings.{
  read_lines, key_value, set_field, set_fields, set_by, set_line, set_lines, blank, is_valid,
  parse_text, load, config_text, save,
}

-- Every string fits its array, with its terminator.
abbrev pub Fits : Config → Type 0
Fits cfg =
    (length cfg.agent_id ≤ 36)
    × ((length cfg.tenant_id ≤ 36)
        × ((length cfg.ws_endpoint ≤ 511)
            × ((length cfg.hostname ≤ 255)
                × ((length cfg.os_name ≤ 31)
                    × ((length cfg.os_version ≤ 127)
                        × ((length cfg.arch ≤ 15)
                            × ((length cfg.hardware_id ≤ 36)
                                × ((length cfg.ca_fingerprint ≤ 64)))))))))

length-set_field :
    (key val target : Bytes) (room : ℕ) (old : Bytes)
    → length old ≤ room
    → length (set_field key val target room old) ≤ room
unfolding set_field
length-set_field key val target room old h = ground (arith, length-take room val)

set_fields-Fits : (cfg : Config) (key val : Bytes) → Fits cfg → Fits (set_fields cfg key val)
unfolding set_fields
set_fields-Fits cfg key val h = (
  length-set_field key val (bytes "agent_id") 36 cfg.agent_id h.0,
  (
    length-set_field key val (bytes "tenant_id") 36 cfg.tenant_id h.1.0,
    (
      length-set_field key val (bytes "ws_endpoint") 511 cfg.ws_endpoint h.1.1.0,
      (
        length-set_field key val (bytes "hostname") 255 cfg.hostname h.1.1.1.0,
        (
          length-set_field key val (bytes "os_name") 31 cfg.os_name h.1.1.1.1.0,
          (
            length-set_field key val (bytes "os_version") 127 cfg.os_version h.1.1.1.1.1.0,
            (
              length-set_field key val (bytes "arch") 15 cfg.arch h.1.1.1.1.1.1.0,
              (
                length-set_field key val (bytes "hardware_id") 36 cfg.hardware_id h.1.1.1.1.1.1.1.0,
                length-set_field key val (bytes "ca_fingerprint") 64 cfg.ca_fingerprint
                    h.1.1.1.1.1.1.1.1,
              ),
            ),
          ),
        ),
      ),
    ),
  ),
)

set_by-Fits : (cfg : Config) (kv : Option (Bytes × Bytes)) → Fits cfg → Fits (set_by cfg kv)
unfolding set_by
set_by-Fits cfg none h = h
set_by-Fits cfg (some (key, val)) h = set_fields-Fits cfg key val h

set_lines-Fits : (cfg : Config) (lines : List Bytes) → Fits cfg → Fits (set_lines cfg lines)
unfolding set_lines set_line
set_lines-Fits cfg [] h = h
set_lines-Fits cfg (line ∷ lines) h =
    set_lines-Fits (set_by cfg (key_value line)) lines (set_by-Fits cfg (key_value line) h)

-- Whatever a file holds, and whether or not it is accepted, no string of the structure is longer than
-- its array, and if it is accepted then the structure is valid.
pub load-Fits :
    (text : Bytes) (old : Config)
    → Fits (load (some text) old).1
      × ((load (some text) old).0 ≡ ok → is_valid (load (some text) old).1 ≡ true)
unfolding load parse_text
load-Fits text old = (
  set_lines-Fits blank (read_lines 1023 (length text) text) (
    omega arith,
    (
      omega arith,
      (
        omega arith,
        (omega arith, (omega arith, (omega arith, (omega arith, (omega arith, omega arith))))),
      ),
    ),
  ),
  λ e. ground arith,
)

-- A line that does not set `target`.
abbrev pub Lacks : Bytes → Option (Bytes × Bytes) → Type 0
Lacks target none = Unit
Lacks target (some (key, val)) = str_eq key target ≡ false

-- No line that the loop sees sets `target`.
abbrev pub Missing : Bytes → Bytes → Type 0
Missing target text = All (λ l. Lacks target (key_value l)) (read_lines 1023 (length text) text)

module _ {A : Type 0} (get : Config → A) (target : Bytes)
    (keeps : (cfg : Config) (key val : Bytes)
      → str_eq key target ≡ false
      → get (set_fields cfg key val) ≡ get cfg) where
  set_by_kept :
      (cfg : Config) (kv : Option (Bytes × Bytes)) → Lacks target kv → get (set_by cfg kv) ≡ get cfg
  unfolding set_by
  set_by_kept cfg none h = refl
  set_by_kept cfg (some (key, val)) h = keeps cfg key val h

  set_lines_kept :
      (cfg : Config) (lines : List Bytes)
      → All (λ l. Lacks target (key_value l)) lines
      → get (set_lines cfg lines) ≡ get cfg
  unfolding set_lines set_line
  set_lines_kept cfg [] h = refl
  set_lines_kept cfg (line ∷ lines) h =
      set_lines_kept (set_by cfg (key_value line)) lines h.1 ∙ set_by_kept cfg (key_value line) h.0

agent_id-Missing :
    (text : Bytes) → Missing (bytes "agent_id") text → is_valid (parse_text text) ≡ false
unfolding parse_text is_valid
agent_id-Missing text h =
    let kept =
      set_lines_kept (λ c. c.agent_id) (bytes "agent_id")
        (λ cfg key val e. unfold set_fields in unfold set_field in rw e refl) blank
        (read_lines 1023 (length text) text) h in
    ground (arith, ap length kept)

tenant_id-Missing :
    (text : Bytes) → Missing (bytes "tenant_id") text → is_valid (parse_text text) ≡ false
unfolding parse_text is_valid
tenant_id-Missing text h =
    let kept =
      set_lines_kept (λ c. c.tenant_id) (bytes "tenant_id")
        (λ cfg key val e. unfold set_fields in unfold set_field in rw e refl) blank
        (read_lines 1023 (length text) text) h in
    ground (arith, ap length kept)

ws_endpoint-Missing :
    (text : Bytes) → Missing (bytes "ws_endpoint") text → is_valid (parse_text text) ≡ false
unfolding parse_text is_valid
ws_endpoint-Missing text h =
    let kept =
      set_lines_kept (λ c. c.ws_endpoint) (bytes "ws_endpoint")
        (λ cfg key val e. unfold set_fields in unfold set_field in rw e refl) blank
        (read_lines 1023 (length text) text) h in
    ground (arith, ap length kept)

ca_fingerprint-Missing :
    (text : Bytes) → Missing (bytes "ca_fingerprint") text → is_valid (parse_text text) ≡ false
unfolding parse_text is_valid
ca_fingerprint-Missing text h =
    let kept =
      set_lines_kept (λ c. c.ca_fingerprint) (bytes "ca_fingerprint")
        (λ cfg key val e. unfold set_fields in unfold set_field in rw e refl) blank
        (read_lines 1023 (length text) text) h in
    ground (arith, ap length kept)

-- A file in which no line sets one of the four keys that the agent needs is refused.
pub load-Missing :
    (text : Bytes) (old : Config)
    → Missing (bytes "agent_id") text
      ⊎ (Missing (bytes "tenant_id") text
          ⊎ (Missing (bytes "ws_endpoint") text ⊎ Missing (bytes "ca_fingerprint") text))
    → load (some text) old ≡ (err_config, parse_text text)
unfolding load
load-Missing text old (inl h) = rw (agent_id-Missing text h) refl
load-Missing text old (inr (inl h)) = rw (tenant_id-Missing text h) refl
load-Missing text old (inr (inr (inl h))) = rw (ws_endpoint-Missing text h) refl
load-Missing text old (inr (inr (inr h))) = rw (ca_fingerprint-Missing text h) refl

-- What `leo_config_is_valid` asks for.
pub is_valid_iff :
    (cfg : Config)
    → (is_valid cfg ≡ true) ↔ (
        (length cfg.ca_fingerprint ≡ 64)
        × (length cfg.agent_id ≢ 0)
        × (length cfg.tenant_id ≢ 0)
        × (length cfg.ws_endpoint ≢ 0))
unfolding is_valid
is_valid_iff cfg = ground arith

-- `leo_config_save` fails where the file cannot be opened, and leaves a beginning of the text otherwise.
pub save-cases :
    (o : Option ℕ) (cfg : Config)
    → ((room : ℕ) × (o ≡ some room) × (save o cfg ≡ (ok, some (take room (config_text cfg)))))
      ⊎ (save o cfg ≡ (err_config, none))
unfolding save
save-cases (some room) cfg = inl (room, refl, refl)
save-cases none cfg = inr refl
