-- ===== src/Protocol/Uuid.antt =====
-- agent/src/protocol.c, `_gen_uuid`: a version 4 UUID from sixteen random bytes.
pub mod Shape
use Prim.Native.Nat.{bit_and, bit_or}
use leo_one.Prelude.{ℕ, ◌+◌, ◌/◌, ◌%◌, [], ◌∷◌, ◌++◌, Bytes, get_or, ltb, if◌then◌else◌}

-- "%x" of a number below 16
abbrev pub hex_digit : ℕ → ℕ
hex_digit n = if ltb n 10 then b'0' + n else 87 + n

-- "%02x" of a byte
abbrev pub hex_byte : ℕ → Bytes
hex_byte b = hex_digit (b / 16) ∷ hex_digit (b % 16) ∷ []

-- `rnd[6] = (rnd[6] & 0x0F) | 0x40`
pub version_byte : ℕ → ℕ
version_byte b = bit_or (bit_and b 0x0F) 0x40

-- `rnd[8] = (rnd[8] & 0x3F) | 0x80`
pub variant_byte : ℕ → ℕ
variant_byte b = bit_or (bit_and b 0x3F) 0x80

pub gen_uuid : Bytes → Bytes
gen_uuid rnd =
    at 0
    ++ (at 1
        ++ (at 2
            ++ (at 3
                ++ (b'-'
                    ∷ (at 4
                        ++ (at 5
                            ++ (b'-'
                                ∷ (hex_byte (version_byte (get_or rnd 6 0))
                                    ++ (at 7
                                        ++ (b'-'
                                            ∷ (hex_byte (variant_byte (get_or rnd 8 0))
                                                ++ (at 9
                                                    ++ (b'-'
                                                        ∷ (at 10
                                                            ++ (at 11
                                                            ++ (at 12
                                                            ++ (at 13
                                                            ++ (at 14 ++ at 15))))))))))))))))))
  where
    at : ℕ → Bytes
    at i = hex_byte (get_or rnd i 0)
