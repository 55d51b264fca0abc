-- ===== src/LinuxInput/Keys.antt =====
-- agent/platform/linux/input_linux.c: the keys of a keyboard, by the names of their X11 keysyms.
use leo_one.Prelude.{
  get_elem?, Bytes, bytes, str_eq, str_eq_iff, ℕ, zero, suc, ◌≡◌, refl, ap, Bool, true, false, not,
  ◌&&◌, ◌||◌, Option, none, some, List, [], ◌∷◌, arith,
}

-- The keysyms of the switch, in the order of leo_rd_key_t from LEO_KEY_A on, without their `XK_`.
keysyms : List Bytes
keysyms =
    bytes "a"
    ∷ bytes "b"
    ∷ bytes "c"
    ∷ bytes "d"
    ∷ bytes "e"
    ∷ bytes "f"
    ∷ bytes "g"
    ∷ bytes "h"
    ∷ bytes "i"
    ∷ bytes "j"
    ∷ bytes "k"
    ∷ bytes "l"
    ∷ bytes "m"
    ∷ bytes "n"
    ∷ bytes "o"
    ∷ bytes "p"
    ∷ bytes "q"
    ∷ bytes "r"
    ∷ bytes "s"
    ∷ bytes "t"
    ∷ bytes "u"
    ∷ bytes "v"
    ∷ bytes "w"
    ∷ bytes "x"
    ∷ bytes "y"
    ∷ bytes "z"
    ∷ bytes "0"
    ∷ bytes "1"
    ∷ bytes "2"
    ∷ bytes "3"
    ∷ bytes "4"
    ∷ bytes "5"
    ∷ bytes "6"
    ∷ bytes "7"
    ∷ bytes "8"
    ∷ bytes "9"
    ∷ bytes "Return"
    ∷ bytes "Escape"
    ∷ bytes "BackSpace"
    ∷ bytes "Tab"
    ∷ bytes "space"
    ∷ bytes "minus"
    ∷ bytes "equal"
    ∷ bytes "bracketleft"
    ∷ bytes "bracketright"
    ∷ bytes "backslash"
    ∷ bytes "semicolon"
    ∷ bytes "apostrophe"
    ∷ bytes "grave"
    ∷ bytes "comma"
    ∷ bytes "period"
    ∷ bytes "slash"
    ∷ bytes "Caps_Lock"
    ∷ bytes "F1"
    ∷ bytes "F2"
    ∷ bytes "F3"
    ∷ bytes "F4"
    ∷ bytes "F5"
    ∷ bytes "F6"
    ∷ bytes "F7"
    ∷ bytes "F8"
    ∷ bytes "F9"
    ∷ bytes "F10"
    ∷ bytes "F11"
    ∷ bytes "F12"
    ∷ bytes "Print"
    ∷ bytes "Scroll_Lock"
    ∷ bytes "Pause"
    ∷ bytes "Insert"
    ∷ bytes "Home"
    ∷ bytes "Page_Up"
    ∷ bytes "Delete"
    ∷ bytes "End"
    ∷ bytes "Page_Down"
    ∷ bytes "Right"
    ∷ bytes "Left"
    ∷ bytes "Down"
    ∷ bytes "Up"
    ∷ bytes "Num_Lock"
    ∷ bytes "Control_L"
    ∷ bytes "Shift_L"
    ∷ bytes "Alt_L"
    ∷ bytes "Super_L"
    ∷ bytes "Control_R"
    ∷ bytes "Shift_R"
    ∷ bytes "Alt_R"
    ∷ bytes "Super_R"
    ∷ []

-- `_keysym_for`: none is NoSymbol.
unfoldable pub keysym_for : ℕ → Option Bytes
unfolding keysyms
keysym_for zero = none
keysym_for (suc key) = get_elem? keysyms key

has_name : Bytes → List Bytes → Bool
has_name name [] = false
has_name name (x ∷ xs) = str_eq name x || has_name name xs

all_distinct : List Bytes → Bool
unfolding has_name
all_distinct [] = true
all_distinct (x ∷ xs) = not (has_name x xs) && all_distinct xs

keysyms-distinct : all_distinct keysyms ≡ true
unfolding keysyms all_distinct str_eq
keysyms-distinct = refl

has_name-get :
    (name : Bytes) (xs : List Bytes) (i : ℕ) → get_elem? xs i ≡ some name → has_name name xs ≡ true
unfolding has_name
has_name-get name [] i h = absurd (ground (arith, h))
has_name-get name (x ∷ xs) zero h = ground (arith, h, str_eq_iff name x)
has_name-get name (x ∷ xs) (suc i) h = ground (arith, has_name-get name xs i h)

get-same :
    (xs : List Bytes) (i j : ℕ) (name : Bytes)
    → all_distinct xs ≡ true
    → get_elem? xs i ≡ some name
    → get_elem? xs j ≡ some name
    → i ≡ j
unfolding all_distinct
get-same [] i j name d h k = absurd (ground (arith, h))
get-same (x ∷ xs) zero zero name d h k = refl
get-same (x ∷ xs) zero (suc j) name d h k = absurd (ground (arith, d, h, has_name-get name xs j k))
get-same (x ∷ xs) (suc i) zero name d h k = absurd (ground (arith, d, k, has_name-get name xs i h))
get-same (x ∷ xs) (suc i) (suc j) name d h k =
    let rest : all_distinct xs ≡ true = ground (arith, d) in ap suc (get-same xs i j name rest h k)

-- No two keys that a client can send stand for the same keysym.
pub keysym_for_injective :
    (a b : ℕ) (name : Bytes) → keysym_for a ≡ some name → keysym_for b ≡ some name → a ≡ b
unfolding keysym_for
keysym_for_injective zero b name h k = absurd (ground (arith, h))
keysym_for_injective (suc a) zero name h k = absurd (ground (arith, k))
keysym_for_injective (suc a) (suc b) name h k =
    ap suc (get-same keysyms a b name keysyms-distinct h k)
