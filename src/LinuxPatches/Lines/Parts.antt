-- ===== src/LinuxPatches/Lines/Parts.antt =====
-- agent/platform/linux/patches_linux.c: the parts of a line that apt prints.
use leo_one.Prelude.{
  leb, ◌==◌, length, drop, take-append, All, Bytes, bytes, find_index, starts_with, take-of-le,
  Bool-cases, map, if◌then◌else◌, ℕ, suc, ◌≤◌, ◌<◌, ◌≡◌, refl, ap, ap₂, ◌↔◌, inl, inr, Bool, true,
  Option, ◌∙◌, ◌≢◌, false, some, [], ◌∷◌, ◌++◌, arith,
}
use leo_one.Types.{Severity, important, critical, Patch, patch_id_max_len}
use leo_one.LinuxPatches.Lines.{
  to_lower, contains, looks_security, cut, cut_at, or_empty, severity_of, apt_patch, apt_version,
  apt_pocket, apt_name, parse_apt_line,
}
use leo_one.LinuxPatches.Lines.Sound.{title_whole}

abbrev pub Without : ℕ → Bytes → Type 0
Without c s = All (λ b. b ≢ c) s

pub find_index-here :
    (c : ℕ) (a b : Bytes) → Without c a → find_index c (a ++ (c ∷ b)) ≡ some (length a)
unfolding find_index
find_index-here c [] b h = ground arith
find_index-here c (x ∷ a) b h = ground (arith, find_index-here c a b h.1)

pub drop-behind : (c : ℕ) (a b : Bytes) → drop (suc (length a)) (a ++ (c ∷ b)) ≡ b
drop-behind c [] b = refl
drop-behind c (x ∷ a) b = drop-behind c a b

pub cut-here : (c : ℕ) (a b : Bytes) → Without c a → cut c (a ++ (c ∷ b)) ≡ some (a, b)
cut-here c a b h =
    ap (cut_at (a ++ (c ∷ b))) (find_index-here c a b h)
    ∙ ap some (ap₂ (λ x y. (x, y)) (take-append a (c ∷ b)) (drop-behind c a b))

-- A text in which the letters of "security" stand somewhere, in capitals or not.
abbrev pub Speaks : Bytes → Type 0
Speaks origin =
    (before : Bytes) × (behind : Bytes) × (map to_lower origin
      ≡ before ++ (bytes "security" ++ behind))

starts_with-append : (word rest : Bytes) → starts_with word (word ++ rest) ≡ true
unfolding starts_with
starts_with-append [] rest = refl
starts_with-append (c ∷ word) rest = ground (arith, starts_with-append word rest)

starts_with-split :
    (word s : Bytes) → starts_with word s ≡ true → (rest : Bytes) × (s ≡ word ++ rest)
unfolding starts_with
starts_with-split [] s h = (s, refl)
starts_with-split (x ∷ word) [] h = absurd (ground (arith, h))
starts_with-split (x ∷ word) (y ∷ s) h =
    let tail : starts_with word s ≡ true = ground (arith, h) in
    let head : y ≡ x = ground (arith, h) in
    let (rest, e) = starts_with-split word s tail in (rest, ap₂ (λ c t. c ∷ t) head e)

contains-split :
    (word s : Bytes)
    → contains word s ≡ true
    → (before : Bytes) × (behind : Bytes) × (s ≡ before ++ (word ++ behind))
unfolding contains
contains-split word [] h = let (rest, e) = starts_with-split word [] h in ([], rest, e)
contains-split word (c ∷ s) h = elim (Bool-cases (starts_with word (c ∷ s))) [
  | inl here ↦ let (rest, e) = starts_with-split word (c ∷ s) here in ([], rest, e)
  | inr there ↦
      let (before, behind, e) = contains-split word s (ground (arith, h, there)) in
      (c ∷ before, behind, ap (λ t. c ∷ t) e)
]

contains-append : (word before behind : Bytes) → contains word (before ++ (word ++ behind)) ≡ true
unfolding contains
contains-append word [] behind = at_start word (word ++ behind) (starts_with-append word behind)
  where
    at_start : (w s : Bytes) → starts_with w s ≡ true → contains w s ≡ true
    at_start w [] h = h
    at_start w (c ∷ s) h = rw h refl
contains-append word (c ∷ before) behind = ground (arith, contains-append word before behind)

looks_security-Speaks :
    (origin : Bytes) → length origin ≤ 127 → (looks_security origin ≡ true) ↔ Speaks origin
unfolding looks_security
looks_security-Speaks origin h = rw (take-of-le 127 origin h) (
  (contains-split (bytes "security") (map to_lower origin)),
  (λ (before, behind, e). rw e (contains-append (bytes "security") before behind)),
)

-- Critical or important, as the origin says.
severity_if :
    (b : Bool) {P : Type 0}
    → ((b ≡ true) ↔ P)
    → ((if b then critical else important) ≡ critical ↔ P)
      × ((if b then critical else important) ≡ important ↔ ¬ P)
severity_if true h = ((λ e. h.0 refl, λ p. refl), (λ e. absurd cc, λ n. absurd (n (h.0 refl))))
severity_if false h = (
  (λ e. absurd cc, λ p. absurd (ground (arith, h.1 p))),
  (λ e p. absurd (ground (arith, h.1 p)), λ n. refl),
)

-- The patch that a line of apt says: named after the package, with a title that says name and version,
-- critical exactly if the origin speaks of security, and important exactly if it does not.
abbrev pub IsPatchOf : Bytes → Bytes → Bytes → Option Patch → Type 0
IsPatchOf name pocket version o =
    (severity : Severity) × (o
      ≡ some record {
        id = name;
        title = name ++ (bytes " → " ++ version);
        severity = severity;
        size_bytes = 0;
      })
    × ((severity ≡ critical) ↔ Speaks pocket)
    × ((severity ≡ important) ↔ ¬ Speaks pocket)

-- The patch, with the severity as it is computed.
parse_apt_line-eq :
    (name pocket version rest : Bytes)
    → Without b'/' name
    → Without b' ' pocket
    → Without b' ' version
    → 0 < length name
    → length name < patch_id_max_len
    → length pocket ≤ 127
    → 0 < length version
    → length version ≤ 63
    → parse_apt_line (name ++ (b'/' ∷ (pocket ++ (b' ' ∷ (version ++ (b' ' ∷ rest))))))
      ≡ some record {
        id = name;
        title = name ++ (bytes " → " ++ version);
        severity = severity_of pocket;
        size_bytes = 0;
      }
unfolding parse_apt_line apt_name apt_pocket apt_version apt_patch
parse_apt_line-eq name pocket version rest no_slash no_space plain filled short narrow given fits =
    let named : length name == 0 ≡ false = ground arith in
    let held : leb patch_id_max_len (length name) ≡ false = ground arith in
    let numbered : length version == 0 ≡ false = ground arith in
    let whole : or_empty 64 version ≡ version = ground arith in
    let origin : or_empty 128 pocket ≡ pocket = ground arith in
    rw
      (
        cut-here b'/' name (pocket ++ (b' ' ∷ (version ++ (b' ' ∷ rest)))) no_slash,
        cut-here b' ' pocket (version ++ (b' ' ∷ rest)) no_space,
        cut-here b' ' version rest plain,
        named,
        held,
        numbered,
        whole,
        origin,
        title_whole name version short fits,
      )
      refl

-- A line of apt is taken apart into the package's name, its origin and its version, whatever follows
-- them, if each fits its buffer: the patch is named after the package, its title says both, it is
-- critical exactly if the letters of "security" stand somewhere in the origin, in capitals or not, and
-- important exactly if they do not.
pub parse_apt_line-parts :
    (name pocket version rest : Bytes)
    → Without b'/' name
    → Without b' ' pocket
    → Without b' ' version
    → 0 < length name
    → length name < patch_id_max_len
    → length pocket ≤ 127
    → 0 < length version
    → length version ≤ 63
    → IsPatchOf name pocket version
        (parse_apt_line (name ++ (b'/' ∷ (pocket ++ (b' ' ∷ (version ++ (b' ' ∷ rest)))))))
parse_apt_line-parts name pocket version rest no_slash no_space plain filled short narrow given
      fits =
    let judged = severity_if (looks_security pocket) (looks_security-Speaks pocket narrow) in
    (
      severity_of pocket,
      parse_apt_line-eq name pocket version rest no_slash no_space plain filled short narrow given
          fits,
      judged.0,
      judged.1,
    )
