-- ===== src/Protocol/Incoming/Kinds.antt =====
-- The message types: the numbers on the wire and the reading of them.
use leo_one.Prelude.{leb, ◌≡◌, refl, sym, ap, ◌∙◌, ◌≢◌, ◌↔◌, Bool, true, false, arith}
use leo_one.Types.{MsgType, unknown}
use leo_one.Prelude.Int.{ℤ, pos, negsuc}
use leo_one.Protocol.Code.{code_of}
use leo_one.Protocol.Incoming.{incoming_type}

-- The types that a backend sends.
abbrev pub is_incoming : MsgType → Bool
is_incoming t = elim (code_of t) [ pos n ↦ leb 100 n | negsuc n ↦ false ]

-- Every type that a backend sends is read back from its number.
incoming_type-code_of : (t : MsgType) → is_incoming t ≡ true → incoming_type (code_of t) ≡ t
unfolding incoming_type
incoming_type-code_of t h = ground arith

-- Every number that is read as a known type is the number of that type.
code_of-incoming_type : (z : ℤ) → incoming_type z ≢ unknown → code_of (incoming_type z) ≡ z
unfolding incoming_type
code_of-incoming_type (pos n) h = ground arith
code_of-incoming_type (negsuc n) h = absurd (h refl)

is_incoming-unknown : (t : MsgType) → is_incoming t ≡ true → t ≢ unknown
is_incoming-unknown t h e = cc

-- Of the types that a backend sends, each is read from its own number and from no other.
pub incoming_type_iff :
    (t : MsgType) (z : ℤ) → is_incoming t ≡ true → (incoming_type z ≡ t) ↔ (z ≡ code_of t)
incoming_type_iff t z h = (
  λ e. sym (code_of-incoming_type z (λ u. is_incoming-unknown t h (sym e ∙ u))) ∙ ap code_of e,
  λ e. ap incoming_type e ∙ incoming_type-code_of t h,
)
