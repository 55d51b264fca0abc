-- ===== src/WinExec/Cmdline/Reader.antt =====
-- agent/platform/windows/executor_win.c: the rules that the comment of `_append_quoted_arg` states, by
-- which a program of Windows reads its arguments, and the command line read by them.
use mathlib.Core.Path.{subst}
use leo_one.Prelude.{
  ltb, ◌==◌, ==_iff, if◌then◌else◌, Bool-cases, if_both, length, length-append, Bytes, ℕ, zero, suc,
  ◌+◌, ◌*◌, ◌/◌, ◌%◌, ◌<◌, ◌≡◌, refl, sym, ap, ap₂, ◌∙◌, inl, inr, Bool, true, false, not, ◌&&◌,
  ◌||◌, none, some, List, [], ◌∷◌, ◌++◌, append-nil, append_assoc, arith,
}
use leo_one.WinExec.Cmdline.{is_special, has_special, needs_quotes, next_backslashes, build_cmdline}
use leo_one.WinExec.Cmdline.Whole.{
  slashes, escaped, body, quoted, separated, appended, appended_all, build_cmdline-whole,
}

-- Between two arguments, or inside one: what was read of it, whether quotes are open, and how many
-- backslashes were read last.
pub data Reader : Type 0 where
  between : List Bytes → Reader
  inside : List Bytes → Bytes → Bool → ℕ → Reader

abbrev is_blank : ℕ → Bool
is_blank c = c == b' ' || c == 9

-- A quote behind an even number of backslashes, one for each two of them, opens or closes; behind an
-- odd number it stands for itself. Backslashes before another byte stand for themselves. A blank ends
-- the argument outside quotes.
read_in : List Bytes → Bytes → Bool → ℕ → ℕ → Reader
read_in args cur open_quotes backslashes c =
    if c == 92
    then inside args cur open_quotes (suc backslashes)
    else if c == b'"'
    then (if backslashes % 2 == 0
        then inside args (cur ++ slashes (backslashes / 2)) (not open_quotes) 0
        else inside args (cur ++ (slashes (backslashes / 2) ++ c ∷ [])) open_quotes 0)
    else if not open_quotes && is_blank c
    then between (args ++ (cur ++ slashes backslashes) ∷ [])
    else inside args (cur ++ (slashes backslashes ++ c ∷ [])) open_quotes 0

read_byte : Reader → ℕ → Reader
unfolding read_in
read_byte (between args) c = if is_blank c then between args else read_in args [] false 0 c
read_byte (inside args cur open_quotes backslashes) c = read_in args cur open_quotes backslashes c

read_all : Reader → Bytes → Reader
unfolding read_byte
read_all r [] = r
read_all r (c ∷ cs) = read_all (read_byte r c) cs

args_read : Reader → List Bytes
args_read (between args) = args
args_read (inside args cur open_quotes backslashes) = args ++ (cur ++ slashes backslashes) ∷ []

-- The arguments that a command line is read as.
pub read_args : Bytes → List Bytes
unfolding read_all args_read
read_args t = args_read (read_all (between []) t)

read_all-append : (r : Reader) (s t : Bytes) → read_all r (s ++ t) ≡ read_all (read_all r s) t
unfolding read_all
read_all-append r [] t = refl
read_all-append r (c ∷ s) t = read_all-append (read_byte r c) s t

-- Backslashes are counted.
read_all-slashes :
    (args : List Bytes) (cur : Bytes) (q : Bool) (k n : ℕ)
    → read_all (inside args cur q k) (slashes n) ≡ inside args cur q (k + n)
unfolding read_all read_byte read_in
read_all-slashes args cur q k zero = ap (inside args cur q) (omega arith)
read_all-slashes args cur q k (suc n) =
    read_all-slashes args cur q (suc k) n
    ∙ ap (inside args cur q) {x = suc k + n} {y = k + suc n} (omega arith)

read_all-slashes_zero :
    (args : List Bytes) (cur : Bytes) (q : Bool) (n : ℕ)
    → read_all (inside args cur q 0) (slashes n) ≡ inside args cur q n
read_all-slashes_zero args cur q n =
    read_all-slashes args cur q 0 n ∙ ap (inside args cur q) {x = 0 + n} {y = n} (omega arith)

-- A byte of a quoted argument that is no backslash is read as itself.
read_all-escaped :
    (args : List Bytes) (cur : Bytes) (bs c : ℕ)
    → (c == 92) ≡ false
    → read_all (inside args cur true 0) (escaped bs c)
      ≡ inside args (cur ++ (slashes bs ++ c ∷ [])) true 0
unfolding read_all read_byte read_in
read_all-escaped args cur bs c h = elim (Bool-cases (c == b'"')) [
  | inl quote ↦
      let odd : ((bs * 2 + 1) % 2 == 0) ≡ false = ground arith in
      let half : (bs * 2 + 1) / 2 ≡ bs = omega arith in
      rw
        (
          h,
          quote,
          read_all-append (inside args cur true 0) (slashes (bs * 2 + 1)) (c ∷ []),
          read_all-slashes_zero args cur true (bs * 2 + 1),
          h,
          quote,
          odd,
          half,
        )
        refl
  | inr plain ↦
      rw
        (
          h,
          plain,
          read_all-append (inside args cur true 0) (slashes bs) (c ∷ []),
          read_all-slashes_zero args cur true bs,
          h,
          plain,
        )
        refl
]

slashes-append : (n : ℕ) (t : Bytes) → slashes (suc n) ++ t ≡ slashes n ++ (92 ∷ t)
slashes-append zero t = refl
slashes-append (suc n) t = ap (◌∷◌ 92) (slashes-append n t)

-- A quoted argument is read as itself, up to its closing quote.
read_all-body :
    (args : List Bytes) (cur : Bytes) (bs : ℕ) (arg : Bytes)
    → read_all (inside args cur true 0) (body bs arg)
      ≡ inside args (cur ++ (slashes bs ++ arg)) false 0
unfolding read_all read_byte read_in
read_all-body args cur bs [] =
    let even : (bs * 2 % 2 == 0) ≡ true = ground arith in
    let half : bs * 2 / 2 ≡ bs = omega arith in
    rw
      (
        read_all-append (inside args cur true 0) (slashes (bs * 2)) (b'"' ∷ []),
        read_all-slashes_zero args cur true (bs * 2),
        even,
        half,
        append-nil (slashes bs),
      )
      refl
read_all-body args cur bs (c ∷ cs) = elim (Bool-cases (c == 92)) [
  | inl slash ↦
      let backslash : c ≡ 92 = (==_iff c 92).0 slash in
      let one_more : bs + 1 ≡ suc bs = omega arith in
      rw (slash, one_more, read_all-body args cur (suc bs) cs, slashes-append bs cs, backslash) refl
  | inr other ↦
      let cur' = cur ++ (slashes bs ++ c ∷ []) in
      read_all-append (inside args cur true 0) (escaped bs c) (body (next_backslashes bs c) cs)
      ∙ ap (λ r. read_all r (body (next_backslashes bs c) cs))
          (read_all-escaped args cur bs c other)
      ∙ rw other (read_all-body args cur' 0 cs)
      ∙ ap (λ t. inside args t false 0)
          (append_assoc cur (slashes bs ++ c ∷ []) cs
            ∙ ap (◌++◌ cur) (append_assoc (slashes bs) (c ∷ []) cs))
]

-- Inside an argument, outside quotes, with this much of it read.
abbrev Reads : List Bytes → Bytes → Reader → Type 0
Reads args a (between done) = false ≡ true
Reads args a (inside done cur q k) = (done ≡ args) × (q ≡ false) × (cur ++ slashes k ≡ a)

slashes-concat : (n : ℕ) → slashes (suc n) ≡ slashes n ++ 92 ∷ []
slashes-concat n = sym (append-nil (slashes (suc n))) ∙ slashes-append n []

read_byte-Reads :
    (args : List Bytes) (a : Bytes) (r : Reader) (c : ℕ)
    → is_special c ≡ false
    → Reads args a r
    → Reads args (a ++ c ∷ []) (read_byte r c)
unfolding read_byte read_in
read_byte-Reads args a (between done) c h k = cc
read_byte-Reads args a (inside done cur q n) c h (e, u, w) = elim (Bool-cases (c == 92)) [
  | inl slash ↦
      let backslash : c ≡ 92 = (==_iff c 92).0 slash in
      rw slash (
        e,
        u,
        ap (◌++◌ cur) (slashes-concat n)
            ∙ sym (append_assoc cur (slashes n) (92 ∷ []))
            ∙ ap₂ (λ (s : Bytes) (b : ℕ). s ++ b ∷ []) w (sym backslash),
      )
  | inr other ↦
      let no_quote : (c == b'"') ≡ false = ground (arith, h) in
      let no_blank : is_blank c ≡ false = ground (arith, h) in
      rw (other, no_quote, u, no_blank)
        (
          e,
          refl,
          append-nil (cur ++ (slashes n ++ c ∷ []))
              ∙ sym (append_assoc cur (slashes n) (c ∷ []))
              ∙ ap (λ (s : Bytes). s ++ c ∷ []) w,
        )
]

read_all-Reads :
    (args : List Bytes) (arg a : Bytes) (r : Reader)
    → has_special arg ≡ false
    → Reads args a r
    → Reads args (a ++ arg) (read_all r arg)
unfolding has_special read_all
read_all-Reads args [] a r h k = rw append-nil k
read_all-Reads args (c ∷ cs) a r h k =
    let plain : is_special c ≡ false = ground (arith, h) in
    let others : has_special cs ≡ false = ground (arith, h) in
    rw (← append_assoc a (c ∷ []) cs) (
      read_all-Reads args cs (a ++ c ∷ []) (read_byte r c) others
        (read_byte-Reads args a r c plain k))

first_byte-Reads :
    (args : List Bytes) (c : ℕ)
    → is_special c ≡ false
    → Reads args (c ∷ []) (read_byte (between args) c)
unfolding read_byte read_in
first_byte-Reads args c h =
    let no_blank : is_blank c ≡ false = ground (arith, h) in
    let begins : read_byte (between args) c ≡ read_byte (inside args [] false 0) c =
      rw no_blank refl in
    subst (Reads args (c ∷ [])) (sym begins)
      (read_byte-Reads args [] (inside args [] false 0) c h (refl, refl, refl))

plain-Reads :
    (args : List Bytes) (arg : Bytes)
    → needs_quotes arg ≡ false
    → Reads args arg (read_all (between args) arg)
unfolding needs_quotes has_special read_all
plain-Reads args [] h = cc
plain-Reads args (c ∷ cs) h =
    let plain : is_special c ≡ false = ground (arith, h) in
    let others : has_special cs ≡ false = ground (arith, h) in
    read_all-Reads args cs (c ∷ []) (read_byte (between args) c) others
      (first_byte-Reads args c plain)

-- An argument that stands behind a blank, in quotes where it needs them, is read as itself.
quoted-Reads :
    (args : List Bytes) (arg : Bytes) → Reads args arg (read_all (between args) (quoted arg))
unfolding read_all read_byte read_in
quoted-Reads args arg = elim (Bool-cases (needs_quotes arg)) [
  | inl needed ↦ rw (needed, read_all-body args [] 0 arg) (refl, refl, append-nil arg)
  | inr plain ↦ rw plain (plain-Reads args arg plain)
]

read_blank :
    (args : List Bytes) (a : Bytes) (r : Reader)
    → Reads args a r
    → read_byte r b' ' ≡ between (args ++ a ∷ [])
unfolding read_byte read_in
read_blank args a (between done) k = cc
read_blank args a (inside done cur q n) (e, u, w) = rw (e, u, w) refl

args_read_lem :
    (args : List Bytes) (a : Bytes) (r : Reader) → Reads args a r → args_read r ≡ args ++ a ∷ []
unfolding args_read
args_read_lem args a (between done) k = cc
args_read_lem args a (inside done cur q n) (e, u, w) = rw (e, w) refl

separated_lem : (t : Bytes) → 0 < length t → separated t ≡ t ++ b' ' ∷ []
separated_lem [] h = absurd (omega arith)
separated_lem (c ∷ cs) h = refl

read_all-appended :
    (args : List Bytes) (a t arg : Bytes)
    → 0 < length t
    → Reads args a (read_all (between []) t)
    → Reads (args ++ a ∷ []) arg (read_all (between []) (appended t arg))
unfolding read_all
read_all-appended args a t arg h k =
    rw
      (
        separated_lem t h,
        read_all-append (between []) (t ++ b' ' ∷ []) (quoted arg),
        read_all-append (between []) t (b' ' ∷ []),
        read_blank args a (read_all (between []) t) k,
      )
      (quoted-Reads (args ++ a ∷ []) arg)

read_all-appended_all :
    (args : List Bytes) (a t : Bytes) (argv : List Bytes)
    → 0 < length t
    → Reads args a (read_all (between []) t)
    → args_read (read_all (between []) (appended_all t argv)) ≡ (args ++ a ∷ []) ++ argv
read_all-appended_all args a t [] h k =
    args_read_lem args a (read_all (between []) t) k ∙ sym (append-nil (args ++ a ∷ []))
read_all-appended_all args a t (arg ∷ argv) h k =
    let longer : 0 < length (appended t arg) =
      rw (separated_lem t h)
        (omega (arith, length-append (t ++ b' ' ∷ []) (quoted arg), length-append t (b' ' ∷ []))) in
    read_all-appended_all (args ++ a ∷ []) arg (appended t arg) argv longer
      (read_all-appended args a t arg h k)
    ∙ append_assoc (args ++ a ∷ []) (arg ∷ []) argv

quoted-length : (arg : Bytes) → 0 < length (quoted arg)
unfolding needs_quotes
quoted-length [] = omega arith
quoted-length (c ∷ cs) =
    if_both (λ (t : Bytes). 0 < length t) (needs_quotes (c ∷ cs)) (b'"' ∷ body 0 (c ∷ cs)) (c ∷ cs)
      (omega arith) (omega arith)

read_args-appended_all : (argv : List Bytes) → read_args (appended_all [] argv) ≡ argv
unfolding read_args read_all args_read
read_args-appended_all [] = refl
read_args-appended_all (arg ∷ argv) =
    read_all-appended_all [] arg (quoted arg) argv (quoted-length arg) (quoted-Reads [] arg)

-- Whatever bytes its arguments hold, a command line that is built is read, by the rules that the
-- comment of `_append_quoted_arg` states, as the very arguments that it was built from: none is split,
-- joined or changed.
pub read_args-build_cmdline :
    (dest_sz : ℕ) (argv : List Bytes) (t : Bytes)
    → build_cmdline dest_sz argv ≡ some t
    → read_args t ≡ argv
read_args-build_cmdline dest_sz argv t h =
    elim (Bool-cases (ltb (length (appended_all [] argv)) dest_sz)) [
      | inl fits ↦
          let whole : some (appended_all [] argv) ≡ some t =
            rw fits at (sym (build_cmdline-whole dest_sz argv) ∙ h) in
          let same : appended_all [] argv ≡ t = cc in rw (← same) (read_args-appended_all argv)
      | inr long ↦
          let nothing : none ≡ some t = rw long at (sym (build_cmdline-whole dest_sz argv) ∙ h) in
          absurd (ground (arith, nothing))
    ]
