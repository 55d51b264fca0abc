-- ===== src/WinExec/Environment.antt =====
-- agent/platform/windows/executor_win.c: `_build_env_block`. A block is its bytes, each of its strings
-- behind the other with a terminator, and one more terminator at the end.
use leo_one.Prelude.{
  ◌==◌, if◌then◌else◌, take, take-append_eq, length, length-append, All, Bytes, ℕ, suc, ◌+◌, ◌<◌,
  ◌≡◌, refl, sym, ap, ◌∙◌, ◌≢◌, Bool, true, ◌&&◌, Option, none, some, List, [], ◌∷◌, ◌++◌,
  append_assoc, arith,
}

-- `i`, at the first terminator behind which another stands.
pub end_of_strings : Bytes → ℕ
end_of_strings [] = 0
end_of_strings (c ∷ []) = 0
end_of_strings (c ∷ b ∷ rest) =
    let later = suc (end_of_strings (b ∷ rest)) in if (c == 0) && (b == 0) then 0 else later

-- The strings, each with its terminator.
pub terminated : List Bytes → Bytes
terminated [] = []
terminated (s ∷ strings) = s ++ (0 ∷ terminated strings)

block_with : Bytes → List Bytes → Bytes
unfolding end_of_strings terminated
block_with base extra_env = take (end_of_strings base + 1) base ++ (terminated extra_env ++ 0 ∷ [])

block_from : Option Bytes → Bool → List Bytes → Option Bytes
unfolding block_with
block_from none allocates extra_env = none
block_from (some base) allocates extra_env =
    if allocates then some (block_with base extra_env) else none

-- `_build_env_block`, of what GetEnvironmentStringsA gives and of whether malloc has room: none makes
-- the child inherit the environment.
pub build_env_block : Option Bytes → Bool → List Bytes → Option Bytes
unfolding block_from
build_env_block base allocates [] = none
build_env_block base allocates (s ∷ extra_env) = block_from base allocates (s ∷ extra_env)

abbrev pub block_of : List Bytes → Bytes
block_of strings = terminated strings ++ 0 ∷ []

-- A string of a block is not empty and has no terminator inside.
abbrev pub IsEntry : Bytes → Type 0
IsEntry s = (0 < length s) × All (λ c. c ≢ 0) s

-- The scan goes through an entry up to its terminator.
end_of_strings-entry :
    (c : ℕ) (s : Bytes) (d : ℕ) (rest : Bytes)
    → All (λ b. b ≢ 0) (c ∷ s)
    → d ≢ 0
    → end_of_strings ((c ∷ s) ++ (0 ∷ d ∷ rest)) ≡ length (c ∷ s) + suc (end_of_strings (d ∷ rest))
unfolding end_of_strings
end_of_strings-entry c [] d rest h k = ground arith
end_of_strings-entry c (b ∷ s) d rest h k = ground (arith, end_of_strings-entry b s d rest h.1 k)

-- The scan stops behind the last entry.
end_of_strings-last :
    (c : ℕ) (s : Bytes)
    → All (λ b. b ≢ 0) (c ∷ s)
    → end_of_strings ((c ∷ s) ++ (0 ∷ 0 ∷ [])) ≡ length (c ∷ s)
unfolding end_of_strings
end_of_strings-last c [] h = ground arith
end_of_strings-last c (b ∷ s) h = ground (arith, end_of_strings-last b s h.1)

end_of_strings-block :
    (s : Bytes) (strings : List Bytes)
    → All IsEntry (s ∷ strings)
    → end_of_strings (block_of (s ∷ strings)) + 1 ≡ length (terminated (s ∷ strings))
unfolding terminated
end_of_strings-block [] strings h = absurd (omega (arith, h.0.0))
end_of_strings-block (c ∷ s) [] h =
    let whole : block_of ((c ∷ s) ∷ []) ≡ (c ∷ s) ++ (0 ∷ 0 ∷ []) =
      append_assoc (c ∷ s) (0 ∷ []) (0 ∷ []) in
    rw (whole, end_of_strings-last c s h.0.1) (omega (arith, length-append (c ∷ s) (0 ∷ [])))
end_of_strings-block (c ∷ s) ([] ∷ strings) h = absurd (omega (arith, h.1.0.0))
end_of_strings-block (c ∷ s) ((d ∷ t) ∷ strings) h =
    let later = terminated ((d ∷ t) ∷ strings) in
    let rest = (t ++ (0 ∷ terminated strings)) ++ 0 ∷ [] in
    let whole : block_of ((c ∷ s) ∷ (d ∷ t) ∷ strings) ≡ (c ∷ s) ++ (0 ∷ d ∷ rest) =
      append_assoc (c ∷ s) (0 ∷ later) (0 ∷ []) in
    rw (whole, end_of_strings-entry c s d rest h.0.1 h.1.0.1.0)
      (omega (arith, length-append (c ∷ s) (0 ∷ later), end_of_strings-block (d ∷ t) strings h.1))

terminated-append : (a b : List Bytes) → terminated (a ++ b) ≡ terminated a ++ terminated b
unfolding terminated
terminated-append [] b = refl
terminated-append (s ∷ a) b =
    ap (λ t. s ++ (0 ∷ t)) (terminated-append a b)
    ∙ sym (append_assoc s (0 ∷ terminated a) (terminated b))

-- The block of an environment that is not empty, extended by entries, is the block of all of them in
-- their order: the child's environment has the old entries and the new ones.
pub build_env_block-block_of :
    (s : Bytes) (strings : List Bytes) (extra : Bytes) (extra_env : List Bytes)
    → All IsEntry (s ∷ strings)
    → build_env_block (some (block_of (s ∷ strings))) true (extra ∷ extra_env)
      ≡ some (block_of ((s ∷ strings) ++ (extra ∷ extra_env)))
unfolding build_env_block
build_env_block-block_of s strings extra extra_env h =
    let old = terminated (s ∷ strings) in
    rw
      (
        take-append_eq (end_of_strings (block_of (s ∷ strings)) + 1) old (0 ∷ [])
            (end_of_strings-block s strings h),
        terminated-append (s ∷ strings) (extra ∷ extra_env),
        append_assoc old (terminated (extra ∷ extra_env)) (0 ∷ []),
      )
      refl
