-- ===== src/LinuxLines.antt =====
-- agent/platform/linux: the loop over the lines that a program prints, which patches_linux.c and
-- inventory_linux.c share.
use leo_one.Prelude.{
  Option-cases, take, ℕ, zero, suc, Bytes, ◌≡◌, refl, ap, inl, inr, All, Option, none, some, List,
  [], ◌∷◌,
}
use leo_one.Settings.{c_string}
use leo_one.Enroll.Machine.{chomp}

-- A line that the loop has read, up to its end.
unfoldable pub line_of : Bytes → Bytes
unfolding c_string chomp
line_of line = chomp (c_string line)

module _ {A : Type 0} where
  pub collected : Option A → List A → List A → List A
  collected none skipped kept = skipped
  collected (some p) skipped kept = p ∷ kept

  -- The loop, with so many places left.
  unfoldable pub collect_lines : (Bytes → Option A) → ℕ → List Bytes → List A
  unfolding collected line_of
  collect_lines parse zero lines = []
  collect_lines parse (suc places) [] = []
  collect_lines parse (suc places) (line ∷ lines) =
      collected (parse (line_of line)) (collect_lines parse (suc places) lines)
        (collect_lines parse places lines)

  abbrev put : Option A → List A → List A
  put none ps = ps
  put (some p) ps = p ∷ ps

  -- What all the lines give.
  abbrev pub items_of : (Bytes → Option A) → List Bytes → List A
  items_of parse [] = []
  items_of parse (line ∷ lines) = put (parse (line_of line)) (items_of parse lines)

  pub collect_lines-take :
      (parse : Bytes → Option A) (places : ℕ) (lines : List Bytes)
      → collect_lines parse places lines ≡ take places (items_of parse lines)
  unfolding collect_lines collected
  collect_lines-take parse zero lines = refl
  collect_lines-take parse (suc places) [] = refl
  collect_lines-take parse (suc places) (line ∷ lines) =
      elim (Option-cases (parse (line_of line))) [
        | inl nothing ↦ rw nothing (collect_lines-take parse (suc places) lines)
        | inr (p, found) ↦ rw found (ap (◌∷◌ p) (collect_lines-take parse places lines))
      ]

  module _ (P : A → Type 0) where
    abbrev pub IfSome : Option A → Type 0
    IfSome none = Unit
    IfSome (some p) = P p

    put-All : (o : Option A) (ps : List A) → IfSome o → All P ps → All P (put o ps)
    put-All none ps h k = k
    put-All (some p) ps h k = (h, k)

    -- What holds of what each line gives holds of all of them.
    pub items_of-All :
        (parse : Bytes → Option A) (lines : List Bytes)
        → ((line : Bytes) → IfSome (parse line))
        → All P (items_of parse lines)
    items_of-All parse [] h = tt
    items_of-All parse (line ∷ lines) h =
        put-All (parse (line_of line)) (items_of parse lines) (h (line_of line))
          (items_of-All parse lines h)

    pub take-All : (n : ℕ) (ps : List A) → All P ps → All P (take n ps)
    take-All zero ps h = tt
    take-All (suc n) [] h = tt
    take-All (suc n) (p ∷ ps) h = (h.0, take-All n ps h.1)
