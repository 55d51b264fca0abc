-- ===== src/Settings/Lines.antt =====
-- The lines that the loops over `fgets` see.
use leo_one.Prelude.{
  length, All, length-append, Bytes, ℕ, zero, suc, ◌≤◌, ◌<◌, ◌≡◌, refl, ap, ◌∙◌, ◌≢◌, List, [], ◌∷◌,
  ◌++◌, append_assoc, arith,
}
use leo_one.Settings.{fgets, read_lines}

pub fgets-splits : (room : ℕ) (s : Bytes) → (fgets room s).0 ++ (fgets room s).1 ≡ s
unfolding fgets
fgets-splits zero s = refl
fgets-splits (suc room) [] = refl
fgets-splits (suc room) (c ∷ s) = ground (arith, fgets-splits room s)

pub fgets-le : (room : ℕ) (s : Bytes) → length (fgets room s).0 ≤ room
unfolding fgets
fgets-le zero s = omega arith
fgets-le (suc room) [] = omega arith
fgets-le (suc room) (c ∷ s) = ground (arith, fgets-le room s)

fgets-takes : (room c : ℕ) (s : Bytes) → 0 < length (fgets (suc room) (c ∷ s)).0
unfolding fgets
fgets-takes room c s = ground arith

abbrev pub flatten : List Bytes → Bytes
flatten [] = []
flatten (l ∷ ls) = l ++ flatten ls

-- With a round for each byte, the loop sees the whole file, in pieces that fit the buffer.
pub read_lines_whole :
    (room fuel : ℕ) (s : Bytes)
    → 0 < room
    → length s ≤ fuel
    → (flatten (read_lines room fuel s) ≡ s) × All (λ l. length l ≤ room) (read_lines room fuel s)
unfolding read_lines
read_lines_whole room zero [] h k = (refl, tt)
read_lines_whole room zero (c ∷ s) h k = absurd (omega arith)
read_lines_whole room (suc fuel) [] h k = (refl, tt)
read_lines_whole zero (suc fuel) (c ∷ s) h k = absurd (omega arith)
read_lines_whole (suc room) (suc fuel) (c ∷ s) h k =
    let line = (fgets (suc room) (c ∷ s)).0 in
    let rest = (fgets (suc room) (c ∷ s)).1 in
    let whole = fgets-splits (suc room) (c ∷ s) in
    let shorter : length rest ≤ fuel =
      omega (arith, ap length whole, length-append line rest, fgets-takes room c s, k) in
    let later = read_lines_whole (suc room) fuel rest h shorter in
    (ap (◌++◌ line) later.0 ∙ whole, (fgets-le (suc room) (c ∷ s), later.1))

-- A text without a newline.
abbrev pub IsLine : Bytes → Type 0
IsLine s = All (λ c. c ≢ b'\n') s

fgets-line :
    (room : ℕ) (line rest : Bytes)
    → IsLine line
    → length line < room
    → fgets room (line ++ (b'\n' ∷ rest)) ≡ (line ++ (b'\n' ∷ []), rest)
unfolding fgets
fgets-line zero line rest l h = absurd (omega arith)
fgets-line (suc room) [] rest l h = refl
fgets-line (suc room) (c ∷ line) rest l h =
    ground (arith, l.0, fgets-line room line rest l.1 (omega arith))

read_lines-more :
    (room fuel : ℕ) (line rest : Bytes)
    → IsLine line
    → length line < room
    → read_lines room (suc fuel) (line ++ (b'\n' ∷ rest))
      ≡ (line ++ (b'\n' ∷ [])) ∷ read_lines room fuel rest
unfolding read_lines
read_lines-more room fuel [] rest l h =
    let e = fgets-line room [] rest l h in ap (λ r. r.0 ∷ read_lines room fuel r.1) e
read_lines-more room fuel (c ∷ line) rest l h =
    let e = fgets-line room (c ∷ line) rest l h in ap (λ r. r.0 ∷ read_lines room fuel r.1) e

-- Lines, each with its newline.
abbrev pub with_newlines : List Bytes → List Bytes
with_newlines [] = []
with_newlines (l ∷ ls) = (l ++ (b'\n' ∷ [])) ∷ with_newlines ls

-- Lines that fit the buffer are seen one by one.
pub read_lines-with_newlines :
    (room fuel : ℕ) (ls : List Bytes)
    → All (λ l. IsLine l × (length l < room)) ls
    → length ls ≤ fuel
    → read_lines room fuel (flatten (with_newlines ls)) ≡ with_newlines ls
unfolding read_lines
read_lines-with_newlines room zero [] v h = refl
read_lines-with_newlines room zero (l ∷ ls) v h = absurd (omega arith)
read_lines-with_newlines room (suc fuel) [] v h = refl
read_lines-with_newlines room (suc fuel) (l ∷ ls) v h =
    ap (read_lines room (suc fuel)) (append_assoc l (b'\n' ∷ []) (flatten (with_newlines ls)))
    ∙ read_lines-more room fuel l (flatten (with_newlines ls)) v.0.0 v.0.1
    ∙ ap (◌∷◌ (l ++ (b'\n' ∷ []))) (read_lines-with_newlines room fuel ls v.1 (omega (arith, h)))
