-- ===== src/WinExec/Cmdline/Whole.antt =====
-- agent/platform/windows/executor_win.c: the command line that `_build_cmdline` writes, without the
-- buffer that bounds it.
use leo_one.Prelude.{
  ltb, ltb→lt, leb, ◌==◌, if◌then◌else◌, Bool-cases, length, length-append, replicate, Bytes, ℕ,
  zero, suc, ◌+◌, ◌*◌, ◌≤◌, ◌<◌, ◌≡◌, refl, ap, inl, inr, true, false, none, some, List, [], ◌∷◌,
  ◌++◌, append-nil, append_assoc, arith,
}
use leo_one.WinExec.Cmdline.{
  Out, put, put_times, needs_quotes, put_escaped, next_backslashes, put_body, put_separator,
  put_plain, append_quoted_arg, append_args, cmdline_of, build_cmdline,
}

abbrev pub slashes : ℕ → Bytes
slashes n = replicate n 92

-- A byte of a quoted argument, behind that many backslashes.
abbrev pub escaped : ℕ → ℕ → Bytes
escaped backslashes c =
    if c == 92
    then []
    else if c == b'"'
    then slashes (backslashes * 2 + 1) ++ c ∷ []
    else slashes backslashes ++ c ∷ []

abbrev pub body : ℕ → Bytes → Bytes
body backslashes [] = slashes (backslashes * 2) ++ b'"' ∷ []
body backslashes (c ∷ cs) = escaped backslashes c ++ body (next_backslashes backslashes c) cs

-- An argument, in quotes where it needs them.
abbrev pub quoted : Bytes → Bytes
quoted arg = if needs_quotes arg then b'"' ∷ body 0 arg else arg

-- The arguments, each but the first behind a space.
abbrev pub separated : Bytes → Bytes
separated [] = []
separated (c ∷ cs) = (c ∷ cs) ++ b' ' ∷ []

abbrev pub appended : Bytes → Bytes → Bytes
appended t arg = separated t ++ quoted arg

abbrev pub appended_all : Bytes → List Bytes → Bytes
appended_all t [] = t
appended_all t (arg ∷ argv) = appended_all (appended t arg) argv

-- The buffer holds a text that fits it, and is full under one that does not.
record Holds (sz : ℕ) (t : Bytes) (o : Out) : Type 0 where
  fits : length t < sz → o.text ≡ t
  at : length t < sz → o.pos ≡ length t
  full : sz ≤ length t → o.pos ≡ sz

put-Holds : (sz c : ℕ) (t : Bytes) (o : Out) → Holds sz t o → Holds sz (t ++ c ∷ []) (put sz c o)
unfolding put
put-Holds sz c t o h = elim (Bool-cases (ltb (length t) sz)) [
  | inl room ↦
      let below : length t < sz = ltb→lt (length t) sz room in
      let inside : ltb o.pos sz ≡ true = rw (h.at below) room in
      rw inside (record {
        fits = λ _. ap (λ (s : Bytes). s ++ c ∷ []) (h.fits below);
        at = λ _. omega (arith, h.at below, length-append t (c ∷ []));
        full = λ k. omega (arith, h.at below, length-append t (c ∷ []));
      })
  | inr past ↦
      let above : sz ≤ length t = ground (arith, past) in
      let outside : ltb o.pos sz ≡ false = ground (arith, h.full above) in
      rw outside (record {
        fits = λ k. absurd (omega (arith, length-append t (c ∷ [])));
        at = λ k. absurd (omega (arith, length-append t (c ∷ [])));
        full = λ _. h.full above;
      })
]

put_times-Holds :
    (sz n c : ℕ) (t : Bytes) (o : Out)
    → Holds sz t o
    → Holds sz (t ++ replicate n c) (put_times sz n c o)
unfolding put_times
put_times-Holds sz zero c t o h = rw append-nil h
put_times-Holds sz (suc n) c t o h =
    rw (← append_assoc t (c ∷ []) (replicate n c))
      (put_times-Holds sz n c (t ++ c ∷ []) (put sz c o) (put-Holds sz c t o h))

put_escaped-Holds :
    (sz backslashes c : ℕ) (t : Bytes) (o : Out)
    → Holds sz t o
    → Holds sz (t ++ escaped backslashes c) (put_escaped sz backslashes c o)
unfolding put_escaped
put_escaped-Holds sz backslashes c t o h = elim (Bool-cases (c == 92)) [
  | inl slash ↦ rw (slash, append-nil t) h
  | inr other ↦ elim (Bool-cases (c == b'"')) [
    | inl quote ↦ rw (other, quote) (put_behind (backslashes * 2 + 1))
    | inr plain ↦ rw (other, plain) (put_behind backslashes)
  ]
]
  where
    put_behind : (n : ℕ) → Holds sz (t ++ (slashes n ++ c ∷ [])) (put sz c (put_times sz n 92 o))
    put_behind n =
        rw (← append_assoc t (slashes n) (c ∷ []))
          (put-Holds sz c (t ++ slashes n) (put_times sz n 92 o) (put_times-Holds sz n 92 t o h))

put_body-Holds :
    (sz backslashes : ℕ) (arg t : Bytes) (o : Out)
    → Holds sz t o
    → Holds sz (t ++ body backslashes arg) (put_body sz backslashes arg o)
unfolding put_body
put_body-Holds sz backslashes [] t o h =
    rw (← append_assoc t (slashes (backslashes * 2)) (b'"' ∷ [])) (
      put-Holds sz b'"' (t ++ slashes (backslashes * 2)) (put_times sz (backslashes * 2) 92 o)
        (put_times-Holds sz (backslashes * 2) 92 t o h))
put_body-Holds sz backslashes (c ∷ cs) t o h =
    let next = next_backslashes backslashes c in
    rw (← append_assoc t (escaped backslashes c) (body next cs)) (
      put_body-Holds sz next cs (t ++ escaped backslashes c) (put_escaped sz backslashes c o)
        (put_escaped-Holds sz backslashes c t o h))

pos-lt : (sz : ℕ) (t : Bytes) (o : Out) → Holds sz t o → o.pos < sz → length t < sz
pos-lt sz t o h k = elim (Bool-cases (ltb (length t) sz)) [
  | inl below ↦ ltb→lt (length t) sz below
  | inr past ↦
      let above : sz ≤ length t = ground (arith, past) in absurd (omega (arith, h.full above))
]

full-le :
    (sz : ℕ) (arg t : Bytes) (o : Out)
    → Holds sz t o
    → sz ≤ o.pos + length arg
    → sz ≤ length (t ++ arg)
full-le sz arg t o h k = elim (Bool-cases (ltb (length t) sz)) [
  | inl below ↦ omega (arith, h.at (ltb→lt (length t) sz below), length-append t arg)
  | inr past ↦
      let above : sz ≤ length t = ground (arith, past) in omega (arith, length-append t arg)
]

put_plain-Holds :
    (sz : ℕ) (arg t : Bytes) (o : Out) → Holds sz t o → Holds sz (t ++ arg) (put_plain sz arg o)
unfolding put_plain
put_plain-Holds sz arg t o h = elim (Bool-cases (ltb (o.pos + length arg) sz)) [
  | inl room ↦
      let below : length t < sz =
        pos-lt sz t o h (omega (arith, ltb→lt (o.pos + length arg) sz room)) in
      let inside = ltb→lt (o.pos + length arg) sz room in
      rw room (record {
        fits = λ _. ap (λ (s : Bytes). s ++ arg) (h.fits below);
        at = λ _. omega (arith, h.at below, length-append t arg);
        full = λ k. absurd (omega (arith, h.at below, length-append t arg));
      })
  | inr past ↦
      let above : sz ≤ length (t ++ arg) = full-le sz arg t o h (ground (arith, past)) in
      rw past (record {
        fits = λ k. absurd (omega arith);
        at = λ k. absurd (omega arith);
        full = λ _. refl;
      })
]

-- An argument behind what holds already, with no separator.
put_arg-Holds :
    (sz : ℕ) (arg t : Bytes) (o : Out)
    → Holds sz t o
    → Holds sz
        (t ++ quoted arg)
        (if needs_quotes arg then put_body sz 0 arg (put sz b'"' o) else put_plain sz arg o)
put_arg-Holds sz arg t o h = elim (Bool-cases (needs_quotes arg)) [
  | inl needed ↦
      rw (needed, ← append_assoc t (b'"' ∷ []) (body 0 arg))
        (put_body-Holds sz 0 arg (t ++ b'"' ∷ []) (put sz b'"' o) (put-Holds sz b'"' t o h))
  | inr plain ↦ rw plain (put_plain-Holds sz arg t o h)
]

put_separator-Holds :
    (sz : ℕ) (t : Bytes) (o : Out) → Holds sz t o → Holds sz (separated t) (put_separator sz o)
unfolding put_separator
put_separator-Holds sz [] o h = elim (Bool-cases (ltb 0 sz)) [
  | inl room ↦ let start : ltb 0 o.pos ≡ false = rw (h.at (ltb→lt 0 sz room)) refl in rw start h
  | inr no_room ↦
      let above : sz ≤ 0 = ground (arith, no_room) in
      let start : ltb 0 o.pos ≡ false = ground (arith, h.full above) in rw start h
]
put_separator-Holds sz (c ∷ cs) o h = elim (Bool-cases (ltb 0 o.pos)) [
  | inl behind ↦ rw behind (put-Holds sz b' ' (c ∷ cs) o h)
  | inr start ↦
      let zero_pos : o.pos ≡ 0 = ground (arith, start) in
      let no_room : sz ≡ 0 = no_room_of zero_pos in
      rw start (record {
        fits = λ k. absurd (omega (arith, no_room));
        at = λ k. absurd (omega (arith, no_room));
        full = λ _. omega (arith, zero_pos, no_room);
      })
]
  where
    no_room_of : o.pos ≡ 0 → sz ≡ 0
    no_room_of e = elim (Bool-cases (ltb (length (c ∷ cs)) sz)) [
      | inl below ↦ absurd (omega (arith, h.at (ltb→lt (length (c ∷ cs)) sz below), e))
      | inr past ↦
          let above : sz ≤ length (c ∷ cs) = ground (arith, past) in omega (arith, h.full above, e)
    ]

append_quoted_arg-Holds :
    (sz : ℕ) (arg t : Bytes) (o : Out)
    → Holds sz t o
    → Holds sz (appended t arg) (append_quoted_arg sz arg o)
unfolding append_quoted_arg
append_quoted_arg-Holds sz arg t o h =
    put_arg-Holds sz arg (separated t) (put_separator sz o) (put_separator-Holds sz t o h)

append_args-Holds :
    (sz : ℕ) (argv : List Bytes) (t : Bytes) (o : Out)
    → Holds sz t o
    → Holds sz (appended_all t argv) (append_args sz argv o)
unfolding append_args
append_args-Holds sz [] t o h = h
append_args-Holds sz (arg ∷ argv) t o h =
    append_args-Holds sz argv (appended t arg) (append_quoted_arg sz arg o)
      (append_quoted_arg-Holds sz arg t o h)

cmdline_of-Holds :
    (sz : ℕ) (t : Bytes) (o : Out)
    → Holds sz t o
    → cmdline_of sz o ≡ (if ltb (length t) sz then some t else none)
unfolding cmdline_of
cmdline_of-Holds sz t o h = elim (Bool-cases (ltb (length t) sz)) [
  | inl room ↦
      let below = ltb→lt (length t) sz room in
      let inside : leb sz o.pos ≡ false = ground (arith, h.at below) in
      rw (room, inside, h.fits below) refl
  | inr past ↦
      let above : sz ≤ length t = ground (arith, past) in
      let outside : leb sz o.pos ≡ true = ground (arith, h.full above) in rw (past, outside) refl
]

-- A command line is built exactly if the whole of it, with its terminator, fits the buffer, and then it
-- is the whole: the arguments in their order with a space between them, each in quotes where it needs
-- them, with every quote escaped and the backslashes in front of a quote doubled.
pub build_cmdline-whole :
    (dest_sz : ℕ) (argv : List Bytes)
    → build_cmdline dest_sz argv
      ≡ (if ltb (length (appended_all [] argv)) dest_sz then some (appended_all [] argv) else none)
unfolding build_cmdline
build_cmdline-whole dest_sz argv =
    cmdline_of-Holds dest_sz (appended_all [] argv)
      (append_args dest_sz argv (record { text = []; pos = 0 }))
      (append_args-Holds dest_sz argv [] (record { text = []; pos = 0 })
        (record { fits = λ _. refl; at = λ _. refl; full = λ k. omega arith }))
