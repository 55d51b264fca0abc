-- ===== src/Prelude/Lists.antt =====
-- Lists measured and indexed by native numbers, under the library's names.
use Prim.Native.Nat.{ℕ, zero, suc, ◌+◌, ◌-◌, ◌≤◌, ◌<◌, min}
use mathlib.Core.Path.{◌≡◌, refl, ap, sym, ◌∙◌}
use mathlib.Core.Logic.{◌≢◌}
use mathlib.Core.Bool.{Bool, true, ◌&&◌}
use mathlib.Core.List.{List, [], ◌∷◌, ◌++◌, map}
use mathlib.Core.Option.{Option, none, some}
use native.Mathlib.Omega.{arith}

module _ {ℓ} {A : Type ℓ} where
  abbrev pub length : List A → ℕ
  length [] = 0
  length (_ ∷ xs) = suc (length xs)

  abbrev pub get_elem? : List A → ℕ → Option A
  get_elem? [] i = none
  get_elem? (x ∷ xs) zero = some x
  get_elem? (x ∷ xs) (suc i) = get_elem? xs i

  abbrev pub get_or : List A → ℕ → A → A
  get_or [] _ d = d
  get_or (x ∷ _) zero _ = x
  get_or (_ ∷ xs) (suc i) d = get_or xs i d

  -- A write out of bounds changes nothing.
  abbrev pub set : List A → ℕ → A → List A
  set [] _ _ = []
  set (_ ∷ xs) zero v = v ∷ xs
  set (x ∷ xs) (suc i) v = x ∷ set xs i v

  abbrev pub take : ℕ → List A → List A
  take zero xs = []
  take (suc n) [] = []
  take (suc n) (x ∷ xs) = x ∷ take n xs

  abbrev pub drop : ℕ → List A → List A
  drop zero xs = xs
  drop (suc n) [] = []
  drop (suc n) (x ∷ xs) = drop n xs

  abbrev pub replicate : ℕ → A → List A
  replicate zero a = []
  replicate (suc n) a = a ∷ replicate n a

  -- The list without the element at the index.
  abbrev pub remove_at : ℕ → List A → List A
  remove_at i [] = []
  remove_at zero (x ∷ xs) = xs
  remove_at (suc i) (x ∷ xs) = x ∷ remove_at i xs

  abbrev pub all : (A → Bool) → List A → Bool
  all p [] = true
  all p (x ∷ xs) = p x && all p xs

  abbrev pub All {κ} : (A → Type κ) → List A → Type κ
  All P [] = Unit
  All P (x ∷ xs) = P x × All P xs

  pub length-append : (xs ys : List A) → length (xs ++ ys) ≡ length xs + length ys
  length-append [] ys = omega arith
  length-append (x ∷ xs) ys = omega (arith, length-append xs ys)

module _ {ℓ} {A : Type ℓ} where
  pub length-set : (xs : List A) (i : ℕ) (v : A) → length (set xs i v) ≡ length xs
  length-set [] i v = refl
  length-set (x ∷ xs) zero v = refl
  length-set (x ∷ xs) (suc i) v = ap suc (length-set xs i v)

  pub length-take : (n : ℕ) (xs : List A) → length (take n xs) ≡ min n (length xs)
  length-take zero xs = omega arith
  length-take (suc n) [] = omega arith
  length-take (suc n) (x ∷ xs) = omega (arith, length-take n xs)

  -- A copy that fits is whole.
  pub length-map {κ} : {B : Type κ} (f : A → B) (xs : List A) → length (map f xs) ≡ length xs
  length-map f [] = refl
  length-map f (x ∷ xs) = ap suc (length-map f xs)

  pub take-of-le : (n : ℕ) (xs : List A) → length xs ≤ n → take n xs ≡ xs
  take-of-le zero [] h = refl
  take-of-le zero (x ∷ xs) h = absurd (omega arith)
  take-of-le (suc n) [] h = refl
  take-of-le (suc n) (x ∷ xs) h = ap (◌∷◌ x) (take-of-le n xs (omega arith))

  pub take-append : (xs ys : List A) → take (length xs) (xs ++ ys) ≡ xs
  take-append [] ys = refl
  take-append (x ∷ xs) ys = ap (◌∷◌ x) (take-append xs ys)

  pub drop-append_eq : (n : ℕ) (xs ys : List A) → n ≡ length xs → drop n (xs ++ ys) ≡ ys
  drop-append_eq zero [] ys h = refl
  drop-append_eq zero (x ∷ xs) ys h = absurd (omega arith)
  drop-append_eq (suc n) [] ys h = absurd (omega arith)
  drop-append_eq (suc n) (x ∷ xs) ys h = drop-append_eq n xs ys (omega arith)

  pub take-append_eq : (n : ℕ) (xs ys : List A) → n ≡ length xs → take n (xs ++ ys) ≡ xs
  take-append_eq zero [] ys h = refl
  take-append_eq zero (x ∷ xs) ys h = absurd (omega arith)
  take-append_eq (suc n) [] ys h = absurd (omega arith)
  take-append_eq (suc n) (x ∷ xs) ys h = ap (◌∷◌ x) (take-append_eq n xs ys (omega arith))

  pub drop-append : (xs ys : List A) → drop (length xs) (xs ++ ys) ≡ ys
  drop-append [] ys = refl
  drop-append (x ∷ xs) ys = drop-append xs ys

  pub length-replicate : (n : ℕ) (a : A) → length (replicate n a) ≡ n
  length-replicate zero a = refl
  length-replicate (suc n) a = ap suc (length-replicate n a)

  pub get_or-set_self :
      (xs : List A) (i : ℕ) (v d : A) → i < length xs → get_or (set xs i v) i d ≡ v
  get_or-set_self [] i v d h = absurd (omega arith)
  get_or-set_self (x ∷ xs) zero v d h = refl
  get_or-set_self (x ∷ xs) (suc i) v d h = get_or-set_self xs i v d (omega arith)

  pub get_or-set_ne :
      (xs : List A) {i j : ℕ} (v d : A) → i ≢ j → get_or (set xs i v) j d ≡ get_or xs j d
  get_or-set_ne [] v d h = refl
  get_or-set_ne (x ∷ xs) {i = zero} {j = zero} v d h = absurd (h refl)
  get_or-set_ne (x ∷ xs) {i = zero} {j = suc j} v d h = refl
  get_or-set_ne (x ∷ xs) {i = suc i} {j = zero} v d h = refl
  get_or-set_ne (x ∷ xs) {i = suc i} {j = suc j} v d h = get_or-set_ne xs v d (λ e. h (ap suc e))

  pub length-remove_at :
      (i : ℕ) (xs : List A) (x : A)
      → get_elem? xs i ≡ some x
      → suc (length (remove_at i xs)) ≡ length xs
  length-remove_at i [] x h = cc
  length-remove_at zero (y ∷ xs) x h = refl
  length-remove_at (suc i) (y ∷ xs) x h = ap suc (length-remove_at i xs x h)

  pub All-remove_at {κ} : (P : A → Type κ) (i : ℕ) (xs : List A) → All P xs → All P (remove_at i xs)
  All-remove_at P i [] h = tt
  All-remove_at P zero (x ∷ xs) h = h.1
  All-remove_at P (suc i) (x ∷ xs) h = (h.0, All-remove_at P i xs h.1)

  pub All-append {κ} : (P : A → Type κ) (xs ys : List A) → All P xs → All P ys → All P (xs ++ ys)
  All-append P [] ys hx hy = hy
  All-append P (x ∷ xs) ys hx hy = (hx.0, All-append P xs ys hx.1 hy)

  pub All-weaken {κ κ'} :
      {P : A → Type κ} {Q : A → Type κ'} (f : (a : A) → P a → Q a) (xs : List A)
      → All P xs
      → All Q xs
  All-weaken f [] h = tt
  All-weaken f (x ∷ xs) h = (f x h.0, All-weaken f xs h.1)

  pub length-drop : (n : ℕ) (xs : List A) → length (drop n xs) ≡ length xs - n
  length-drop zero xs = omega arith
  length-drop (suc n) [] = omega arith
  length-drop (suc n) (x ∷ xs) = omega (arith, length-drop n xs)

  take-length-take : (n : ℕ) (xs : List A) → take (length (take n xs)) xs ≡ take n xs
  take-length-take zero xs = refl
  take-length-take (suc n) [] = refl
  take-length-take (suc n) (x ∷ xs) = ap (◌∷◌ x) (take-length-take n xs)

  pub take_nil : (n : ℕ) → take {A = A} n [] ≡ []
  take_nil zero = refl
  take_nil (suc n) = refl

  -- A take goes on behind what has been taken.
  pub take-drop :
      (n m : ℕ) (xs : List A)
      → take n xs ++ take m (drop n xs) ≡ take (n + length (take m (drop n xs))) xs
  take-drop zero m xs =
      let e : length (take m xs) ≡ 0 + length (take m xs) = omega arith in
      sym (take-length-take m xs) ∙ ap (λ k. take k xs) e
  take-drop (suc n) zero [] = sym (take_nil (suc n + 0))
  take-drop (suc n) (suc m) [] = sym (take_nil (suc n + 0))
  take-drop (suc n) m (x ∷ xs) =
      let e : suc (n + length (take m (drop n xs))) ≡ suc n + length (take m (drop n xs)) =
        omega arith in
      ap (◌∷◌ x) (take-drop n m xs) ∙ ap (λ k. take k (x ∷ xs)) e

  -- The beginning of a text with more behind it.
  pub take-append_split :
      (n : ℕ) (a b : List A) → take n (a ++ b) ≡ take n a ++ take (n - length (take n a)) b
  take-append_split zero a b = let e : 0 ≡ 0 - 0 = omega arith in ap (λ k. take k b) e
  take-append_split (suc n) [] b = let e : suc n ≡ suc n - 0 = omega arith in ap (λ k. take k b) e
  take-append_split (suc n) (x ∷ a) b =
      let e : n - length (take n a) ≡ suc n - suc (length (take n a)) = omega arith in
      ap (◌∷◌ x) (take-append_split n a b ∙ ap (λ k. take n a ++ take k b) e)
