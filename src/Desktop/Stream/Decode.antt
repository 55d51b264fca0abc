-- ===== src/Desktop/Stream/Decode.antt =====
-- agent/src/remote_desktop.c: the input that `_handle_input_message` reads from a message.
use leo_one.Prelude.{◌==◌, if_both, All, Bytes, ℕ, ◌≤◌, ◌<◌, Option, none, some, [], ◌∷◌, arith}
use leo_one.Desktop.Stream.{
  Input, input_move, decode_move, decode_button, decode_scroll, decode_key, decode_input,
}

-- A place by the sixteen bits of each coordinate.
abbrev pub IsNormal : Input → Type 0
IsNormal (input_move x y) = (x ≤ 65535) × (y ≤ 65535)
IsNormal _ = Unit

abbrev pub NormalIf : Option Input → Type 0
NormalIf none = Unit
NormalIf (some i) = IsNormal i

abbrev pub AreBytes : Bytes → Type 0
AreBytes s = All (λ b. b < 256) s

decode_move-NormalIf : (rest : Bytes) → AreBytes rest → NormalIf (decode_move rest)
unfolding decode_move
decode_move-NormalIf [] h = tt
decode_move-NormalIf (a ∷ []) h = tt
decode_move-NormalIf (a ∷ b ∷ []) h = tt
decode_move-NormalIf (a ∷ b ∷ c ∷ []) h = tt
decode_move-NormalIf (a ∷ b ∷ c ∷ d ∷ rest) h = omega (arith, h.0, h.1.0, h.1.1.0, h.1.1.1.0)

decode_button-NormalIf : (rest : Bytes) → NormalIf (decode_button rest)
unfolding decode_button
decode_button-NormalIf [] = tt
decode_button-NormalIf (a ∷ []) = tt
decode_button-NormalIf (a ∷ b ∷ rest) = tt

decode_scroll-NormalIf : (rest : Bytes) → NormalIf (decode_scroll rest)
unfolding decode_scroll
decode_scroll-NormalIf [] = tt
decode_scroll-NormalIf (a ∷ []) = tt
decode_scroll-NormalIf (a ∷ b ∷ rest) = tt

decode_key-NormalIf : (rest : Bytes) → NormalIf (decode_key rest)
unfolding decode_key
decode_key-NormalIf [] = tt
decode_key-NormalIf (a ∷ []) = tt
decode_key-NormalIf (a ∷ b ∷ rest) = tt

pub decode_input-NormalIf :
    (kind : ℕ) (rest : Bytes) → AreBytes rest → NormalIf (decode_input kind rest)
unfolding decode_input
decode_input-NormalIf kind rest h =
    if_both NormalIf (kind == 0x10) (decode_move rest) _ (decode_move-NormalIf rest h) (
      if_both NormalIf (kind == 0x11) (decode_button rest) _ (decode_button-NormalIf rest) (
        if_both NormalIf (kind == 0x12) (decode_scroll rest) _ (decode_scroll-NormalIf rest)
          (if_both NormalIf (kind == 0x13) (decode_key rest) none (decode_key-NormalIf rest) tt)))
