-- ===== src/Agent/Dispatch/Requests.antt =====
-- What the dispatchers hand to a thread: the names, the ids and the numbers that they take from a body.
use leo_one.Prelude.{
  length, take, all, All, length-map, take-of-le, Bytes, bytes, ℕ, zero, suc, ◌-◌, ◌≤◌, ◌≡◌, ◌≢◌,
  Bool, true, ◌&&◌, Option, none, some, List, [], ◌∷◌, map, arith,
}
use leo_one.Protocol.Tree.{Cjson}
use leo_one.Prelude.Double.{Double}
use leo_one.Agent.Valid.{IsName, json_number_clamped_bounds}
use leo_one.Agent.{pkg_max_count, positive_or, is_name_byte, pkg_name_valid, patch_id_valid}
use leo_one.Agent.Dispatch.{
  collect_strings, get_items, singleton?, requested_packages, requested_patches,
}
use leo_one.Types.{patch_id_max_len, patch_install_max_count}
use leo_one.Protocol.Incoming.{get_string}

collect_strings_bound :
    {Node : Type 0} (cj : Cjson Node) (room : ℕ) (items : List Node)
    → length (collect_strings cj room items) ≤ room
unfolding collect_strings
collect_strings_bound cj zero items = omega arith
collect_strings_bound cj (suc room) [] = omega arith
collect_strings_bound cj (suc room) (x ∷ items) =
    elim (cj.string x)
      as (λ o.
        length (elim o [
          | none ↦ collect_strings cj (suc room) items
          | some s ↦ s ∷ collect_strings cj room items
        ])
        ≤ suc room) [
          | none ↦ collect_strings_bound cj (suc room) items
          | some s ↦ omega (arith, collect_strings_bound cj room items)
        ]

pub positive_or_bounds :
    (v : Option Double) (hi fallback : ℕ)
    → (1 ≤ hi)
    → (1 ≤ fallback)
    → (fallback ≤ hi)
    → (1 ≤ positive_or v 1 hi fallback) × (positive_or v 1 hi fallback ≤ hi)
unfolding positive_or
positive_or_bounds none hi fallback h h' h'' = (h', h'')
positive_or_bounds (some v) hi fallback h h' h'' =
    ground (arith, json_number_clamped_bounds v 1 hi h)

copied-IsName :
    (most : ℕ) (s : Bytes)
    → length s ≢ 0
    → length s ≤ most
    → all is_name_byte s ≡ true
    → IsName most (take most s)
copied-IsName most s h h' e = rw (take-of-le most s h') (omega (arith, h), h', e)

pub pkg_name_valid-IsName : (s : Bytes) → pkg_name_valid s ≡ true → IsName 128 (take 128 s)
unfolding pkg_name_valid
pkg_name_valid-IsName s e = copied-IsName 128 s (ground arith) (ground arith) (ground arith)

pub patch_id_valid-IsName : (s : Bytes) → patch_id_valid s ≡ true → IsName 159 (take 159 s)
unfolding patch_id_valid
patch_id_valid-IsName s e = copied-IsName 159 s (ground arith) (ground arith) (ground arith)

-- Names that all pass a test are still names when they are copied.
pub all-IsName :
    (most : ℕ) (valid : Bytes → Bool)
    → ((s : Bytes) → valid s ≡ true → IsName most (take most s))
    → (names : List Bytes) → all valid names ≡ true
    → All (IsName most) (map (take most) names)
all-IsName most valid f [] e = tt
all-IsName most valid f (s ∷ names) e =
    let e' : (valid s && all valid names) ≡ true = e in
    (f s (ground arith), all-IsName most valid f names (ground arith))

pub requested_packages_bound :
    {Node : Type 0} (cj : Cjson Node) (body : Option Node)
    → length (requested_packages cj body) ≤ 32
unfolding requested_packages
requested_packages_bound cj body =
    elim (get_items cj body (bytes "packages"))
      as (λ o.
        length (elim o [
          | some items ↦ collect_strings cj pkg_max_count items
          | none ↦ singleton? cj (get_string cj body (bytes "package"))
        ])
        ≤ 32) [
          | some items ↦ collect_strings_bound cj 32 items
          | none ↦
              elim (get_string cj body (bytes "package")) as (λ o. length (singleton? cj o) ≤ 32) [
                | none ↦ omega arith
                | some s ↦ omega arith
              ]
        ]

pub requested_patches_bound :
    {Node : Type 0} (cj : Cjson Node) (body : Option Node) → length (requested_patches cj body) ≤ 64
unfolding requested_patches
requested_patches_bound cj body =
    elim (get_items cj body (bytes "patch_ids"))
      as (λ o.
        length (elim o [
          | some items ↦
              map (take (patch_id_max_len - 1)) (collect_strings cj patch_install_max_count items)
          | none ↦ []
        ])
        ≤ 64) [
          | some items ↦ omega (
            arith,
            length-map (take 159) (collect_strings cj 64 items),
            collect_strings_bound cj 64 items,
          )
          | none ↦ omega arith
        ]
