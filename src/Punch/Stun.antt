-- ===== src/Punch/Stun.antt =====
-- client/nat_traversal.py: the STUN messages. An address is its four bytes.
use Prim.Native.Nat.{bit_xor}
use local_network_ecosystem.Prelude.{
  ℕ, zero, suc, ◌+◌, ◌-◌, ◌*◌, ◌%◌, ◌≤◌, ◌≡◌, refl, not, List, [], ◌∷◌, ◌++◌, arith, ltb,
  if◌then◌else◌, length, take, drop, nat_eq, ◌==◌, length-drop,
}
use local_network_ecosystem.Websocket.Upgrade.{same_text}

-- 0x2112A442
abbrev pub magic_cookie : List ℕ
magic_cookie = 33 ∷ 18 ∷ 164 ∷ 66 ∷ []

-- A transaction id has 12 bytes.
unfoldable pub stun_binding_request : List ℕ → List ℕ
stun_binding_request transaction_id = (0 ∷ 1 ∷ 0 ∷ 0 ∷ []) ++ magic_cookie ++ take 12 transaction_id

-- What the parser returns, or which exception leaves it.
pub data Mapped : Type 0 where
  address : List ℕ → ℕ → Mapped
  value_error struct_error os_error index_error : Mapped

-- bytes(b ^ m for b, m in zip(bs, ms))
unfoldable pub xor_bytes : List ℕ → List ℕ → List ℕ
xor_bytes (b ∷ bs) (m ∷ ms) = bit_xor b m ∷ xor_bytes bs ms
xor_bytes _ _ = []

-- The value of a XOR-MAPPED-ADDRESS; `inet_ntoa` takes four bytes.
unfoldable pub mapped_address : List ℕ → Mapped
unfolding xor_bytes
mapped_address (reserved ∷ family ∷ high ∷ low ∷ rest) =
    let ip = xor_bytes (take 4 rest) magic_cookie in
    if not (family == 1)
    then value_error
    else if length ip == 4
    then address ip (bit_xor (high * 256 + low) 8466)
    else os_error
mapped_address [] = index_error
mapped_address (reserved ∷ []) = index_error
mapped_address _ = struct_error

-- The loop over the attributes, a round of fuel for each.
unfoldable pub attributes : ℕ → List ℕ → Mapped
unfolding mapped_address
attributes (suc fuel) (t1 ∷ t0 ∷ l1 ∷ l0 ∷ rest) =
    let attr_len = l1 * 256 + l0 in
    let later = attributes fuel (drop (attr_len + (4 - attr_len % 4) % 4) rest) in
    if ltb (length rest) attr_len
    then value_error
    else if t1 * 256 + t0 == 32
    then mapped_address (take attr_len rest)
    else later
attributes _ _ = value_error

unfoldable pub parse_stun_mapped_address : List ℕ → List ℕ → Mapped
unfolding attributes same_text
parse_stun_mapped_address (m1 ∷ m0 ∷ l1 ∷ l0 ∷ body) transaction_id =
    if ltb (length body) 16
    then value_error
    else if not (same_text (take 12 (drop 4 body)) transaction_id)
    then value_error
    else attributes (length body) (take (l1 * 256 + l0) (drop 16 body))
parse_stun_mapped_address _ transaction_id = value_error

-- A round for each byte is enough: more fuel gives the same answer.
pub attributes-fuel :
    (fuel more : ℕ) (bs : List ℕ)
    → length bs ≤ fuel
    → fuel ≤ more
    → attributes more bs ≡ attributes fuel bs
unfolding attributes
attributes-fuel zero zero bs h k = refl
attributes-fuel zero (suc more) [] h k = refl
attributes-fuel zero (suc more) (b ∷ bs) h k = absurd (omega arith)
attributes-fuel (suc fuel) zero bs h k = absurd (omega arith)
attributes-fuel (suc fuel) (suc more) [] h k = refl
attributes-fuel (suc fuel) (suc more) (a ∷ []) h k = refl
attributes-fuel (suc fuel) (suc more) (a ∷ b ∷ []) h k = refl
attributes-fuel (suc fuel) (suc more) (a ∷ b ∷ c ∷ []) h k = refl
attributes-fuel (suc fuel) (suc more) (t1 ∷ t0 ∷ l1 ∷ l0 ∷ rest) h k =
    let attr_len = l1 * 256 + l0 in
    let step = attr_len + (4 - attr_len % 4) % 4 in
    let same =
      attributes-fuel fuel more (drop step rest) (omega (arith, length-drop step rest))
        (omega arith) in
    rw same refl

-- A response whose address attribute has no family byte ends in an IndexError, not in a ValueError.
pub attributes-short : (fuel : ℕ) → attributes (suc fuel) (0 ∷ 32 ∷ 0 ∷ 0 ∷ []) ≡ index_error
unfolding attributes mapped_address
attributes-short fuel = refl
