-- ===== src/Auth/Hex.antt =====
-- `binascii.hexlify` and `unhexlify`.
use local_network_ecosystem.Prelude.{
  ℕ, ◌+◌, ◌-◌, ◌*◌, ◌/◌, ◌%◌, ◌<◌, ◌≡◌, refl, ◌&&◌, Option, none, some, List, [], ◌∷◌, arith, ltb,
  leb, if◌then◌else◌, All,
}

abbrev hex_digit : ℕ → ℕ
hex_digit n = if ltb n 10 then 48 + n else 87 + n

hex_value : ℕ → Option ℕ
hex_value c =
    if leb 48 c && leb c 57
    then some (c - 48)
    else if leb 97 c && leb c 102
    then some (c - 87)
    else if leb 65 c && leb c 70
    then some (c - 55)
    else none

unfoldable pub hexlify : List ℕ → List ℕ
hexlify [] = []
hexlify (b ∷ bs) = hex_digit (b / 16) ∷ hex_digit (b % 16) ∷ hexlify bs

hex_byte : Option ℕ → Option ℕ → Option (List ℕ) → Option (List ℕ)
hex_byte (some h) (some l) (some bs) = some ((16 * h + l) ∷ bs)
hex_byte _ _ _ = none

-- `none` for an odd length and for a character that is no hexadecimal digit.
unfoldable pub unhexlify : List ℕ → Option (List ℕ)
unfolding hex_value hex_byte
unhexlify [] = some []
unhexlify (c ∷ []) = none
unhexlify (c ∷ d ∷ rest) = hex_byte (hex_value c) (hex_value d) (unhexlify rest)

hex_value-hex_digit : (n : ℕ) → n < 16 → hex_value (hex_digit n) ≡ some n
unfolding hex_value
hex_value-hex_digit n h = ground arith

-- The bytes of a challenge, written as hexadecimal digits, read back as those bytes.
unhexlify-hexlify : (bs : List ℕ) → All (λ b. b < 256) bs → unhexlify (hexlify bs) ≡ some bs
unfolding hexlify unhexlify hex_byte
unhexlify-hexlify [] h = refl
unhexlify-hexlify (b ∷ bs) h =
    rw
      (
        hex_value-hex_digit (b / 16) (omega arith),
        hex_value-hex_digit (b % 16) (omega arith),
        unhexlify-hexlify bs h.1,
      )
      (ground arith)
