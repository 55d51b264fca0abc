-- ===== src/Enroll/Bootstrap.antt =====
-- agent/src/enroll.c: the bootstrap file with the token and the address of the server.
use leo_one.Prelude.{
  ◌==◌, if◌then◌else◌, Bool-cases, length, take, length-take, Bytes, bytes, str_eq, ◌≤◌, inl, inr,
  Bool, ◌||◌, Option, none, some, List, [], ◌∷◌, arith,
}
use leo_one.Types.{LeoError, ok, err_config}
use leo_one.Settings.{read_lines, key_value}

-- _bootstrap_t
pub record Bootstrap : Type 0 where
  pub enrollment_token : Bytes
  pub api_endpoint : Bytes

-- The two tests of the loop's body. The lines are split as config.c splits them.
pub set_key : Bootstrap → Option (Bytes × Bytes) → Bootstrap
set_key b none = b
set_key b (some (key, val)) =
    if str_eq key (bytes "enrollment_token")
    then record { enrollment_token = take 127 val; api_endpoint = b.api_endpoint }
    else if str_eq key (bytes "api_endpoint")
    then record { enrollment_token = b.enrollment_token; api_endpoint = take 255 val }
    else b

pub set_keys : Bootstrap → List Bytes → Bootstrap
unfolding set_key
set_keys b [] = b
set_keys b (line ∷ lines) = set_keys (set_key b (key_value line)) lines

abbrev pub empty : Bootstrap
empty = record { enrollment_token = []; api_endpoint = [] }

-- `enrollment_token[0] == '\0' || api_endpoint[0] == '\0'`
abbrev pub is_incomplete : Bootstrap → Bool
is_incomplete b = length b.enrollment_token == 0 || length b.api_endpoint == 0

checked : Bootstrap → LeoError × Bootstrap
checked b = (if is_incomplete b then err_config else ok, b)

-- `_load_bootstrap`, on the file's content, or `none` if it cannot be opened.
unfoldable pub load_bootstrap : Option Bytes → LeoError × Bootstrap
unfolding set_keys checked
load_bootstrap none = (err_config, empty)
load_bootstrap (some text) = checked (set_keys empty (read_lines 511 (length text) text))

-- The token and the address fit their buffers.
abbrev pub IsSmall : Bootstrap → Type 0
IsSmall b = (length b.enrollment_token ≤ 127) × (length b.api_endpoint ≤ 255)

set_key-IsSmall : (b : Bootstrap) (kv : Option (Bytes × Bytes)) → IsSmall b → IsSmall (set_key b kv)
unfolding set_key
set_key-IsSmall b none h = h
set_key-IsSmall b (some (key, val)) h = elim (Bool-cases (str_eq key (bytes "enrollment_token"))) [
  | inl token ↦ rw token (omega (arith, length-take 127 val), h.1)
  | inr other ↦ elim (Bool-cases (str_eq key (bytes "api_endpoint"))) [
    | inl endpoint ↦ rw (other, endpoint) (h.0, omega (arith, length-take 255 val))
    | inr none_of_them ↦ rw (other, none_of_them) h
  ]
]

set_keys-IsSmall : (b : Bootstrap) (lines : List Bytes) → IsSmall b → IsSmall (set_keys b lines)
unfolding set_keys
set_keys-IsSmall b [] h = h
set_keys-IsSmall b (line ∷ lines) h =
    set_keys-IsSmall (set_key b (key_value line)) lines (set_key-IsSmall b (key_value line) h)

pub load_bootstrap-IsSmall : (file : Option Bytes) → IsSmall (load_bootstrap file).1
unfolding load_bootstrap
load_bootstrap-IsSmall none = (omega arith, omega arith)
load_bootstrap-IsSmall (some text) =
    set_keys-IsSmall empty (read_lines 511 (length text) text) (omega arith, omega arith)
