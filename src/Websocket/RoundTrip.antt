-- ===== src/Websocket/RoundTrip.antt =====
-- What is sent is read again.
use Prim.Native.Nat.{bit_xor}
use local_network_ecosystem.Prelude.{
  ℕ, zero, suc, ◌+◌, ◌*◌, ◌/◌, ◌%◌, ◌^◌, ◌<◌, ◌≤◌, ◌≡◌, refl, sym, subst, ◌∙◌, true, false, List,
  [], ◌∷◌, ◌++◌, arith, ltb, length, All, nat_eq, length-append, take-append, drop-append,
  Bool-cases, inl, inr,
}
use mathlib.Core.List.{append_assoc}
use local_network_ecosystem.Websocket.{
  ok, Frame, readexactly, sized, framed, ◌>>=◌, to_be, from_be, read_length, unmask, key_byte,
  is_masked, read_payload, read_frame, length_bytes, send_frame,
}
use local_network_ecosystem.Websocket.Mask.{IsByte, unmask-unmask, length-unmask}

readexactly-append : (xs ys : List ℕ) → readexactly (length xs) (xs ++ ys) ≡ ok (xs, ys)
unfolding readexactly
readexactly-append xs ys =
    rw (take-append (length xs) xs ys refl, drop-append (length xs) xs ys refl)
      (ground (arith, length-append xs ys))

from_be-append :
    (acc : ℕ) (xs : List ℕ) (b : ℕ) → from_be acc (xs ++ b ∷ []) ≡ from_be acc xs * 256 + b
unfolding from_be
from_be-append acc [] b = refl
from_be-append acc (x ∷ xs) b = from_be-append (acc * 256 + x) xs b

-- 256 to the power w.
abbrev span : ℕ → ℕ
span zero = 1
span (suc w) = 256 * span w

length-to_be : (w n : ℕ) → length (to_be w n) ≡ w
unfolding to_be
length-to_be zero n = refl
length-to_be (suc w) n =
    omega (arith, length-append (to_be w (n / 256)) (n % 256 ∷ []), length-to_be w (n / 256))

from_be-to_be : (w n : ℕ) → n < span w → from_be 0 (to_be w n) ≡ n
unfolding to_be
from_be-to_be zero n h = unfold from_be in omega arith
from_be-to_be (suc w) n h =
    from_be-append 0 (to_be w (n / 256)) (n % 256)
    ∙ omega (arith, from_be-to_be w (n / 256) (omega arith))

read_extended :
    (w n : ℕ) (rest : List ℕ)
    → n < span w
    → (readexactly w (to_be w n ++ rest) >>= sized) ≡ ok (n, rest)
read_extended w n rest h =
    let whole : readexactly w (to_be w n ++ rest) ≡ ok (to_be w n, rest) =
      subst (λ v. readexactly v (to_be w n ++ rest) ≡ ok (to_be w n, rest)) (length-to_be w n)
        (readexactly-append (to_be w n) rest) in
    rw (whole, from_be-to_be w n h) refl

-- The bytes of a length: the first, which leaves room for a mask bit, and those that it makes the reader read.
record IsRead (n : ℕ) : Type 0 where
  first : ℕ
  extended : List ℕ
  bytes : length_bytes n ≡ first ∷ extended
  small : first < 128
  back : (rest : List ℕ) → read_length first (extended ++ rest) ≡ ok (n, rest)

length_bytes-IsRead : (n : ℕ) → n < span 8 → IsRead n
unfolding length_bytes read_length
length_bytes-IsRead n h = elim (Bool-cases (ltb n 126)) [
  | inl short ↦ record {
    first = n;
    extended = [];
    bytes = rw short refl;
    small = ground arith;
    back = λ rest. ground arith;
  }
  | inr not_short ↦ elim (Bool-cases (ltb n 65536)) [
    | inl medium ↦ record {
      first = 126;
      extended = to_be 2 n;
      bytes = rw (not_short, medium) refl;
      small = omega arith;
      back = λ rest. read_extended 2 n rest (ground arith);
    }
    | inr long ↦ record {
      first = 127;
      extended = to_be 8 n;
      bytes = rw (not_short, long) refl;
      small = omega arith;
      back = λ rest. read_extended 8 n rest h;
    }
  ]
]

-- The reader behind the length of a frame.
read_behind :
    (max_size opcode byte1 n : ℕ) (size : IsRead n) (rest : List ℕ)
    → byte1 % 128 ≡ size.first
    → n ≤ max_size
    → read_frame max_size ((128 + opcode % 16) ∷ byte1 ∷ size.extended ++ rest)
      ≡ (read_payload (is_masked byte1) n rest >>= framed (opcode % 16))
unfolding read_frame
read_behind max_size opcode byte1 n size rest first fits =
    let same : (128 + opcode % 16) % 16 ≡ opcode % 16 = omega arith in
    let not_large : ltb max_size n ≡ false = ground arith in
    rw (first, size.back rest, not_large, same) refl

-- A frame that the relay has sent is read again as it was, whatever follows it, when its payload is not
-- above the reader's limit and the limit is below 256 to the power 8.
pub read_frame-send_frame :
    (max_size opcode : ℕ) (payload rest : List ℕ)
    → opcode < 16
    → length payload ≤ max_size
    → max_size < 256 ^ 8
    → read_frame max_size (send_frame (opcode, payload) ++ rest) ≡ ok ((opcode, payload), rest)
unfolding send_frame read_payload is_masked
read_frame-send_frame max_size opcode payload rest op fits most =
    let size = length_bytes-IsRead (length payload) (omega arith) in
    let plain : is_masked size.first ≡ false = ground (arith, size.small) in
    let same : opcode % 16 ≡ opcode = omega arith in
    rw (size.bytes, append_assoc size.extended payload rest)
      (read_behind max_size opcode size.first (length payload) size (payload ++ rest)
          (omega (arith, size.small)) fits
        ∙ rw (plain, readexactly-append payload rest, same) refl)

-- The bit of a masked frame, on the byte that begins its length.
abbrev pub mask_bit : List ℕ → List ℕ
mask_bit [] = []
mask_bit (b ∷ bs) = (128 + b) ∷ bs

-- The payload masked with the four bytes of a key in turn.
unfoldable pub masked : ℕ → ℕ → ℕ → ℕ → List ℕ → List ℕ
masked a b c d [] = []
masked a b c d (x ∷ xs) = bit_xor x a ∷ masked b c d a xs

-- From its i-th byte on, a payload is unmasked with the key turned by i.
unmask-masked :
    (a b c d i : ℕ) (xs : List ℕ)
    → let key = a ∷ b ∷ c ∷ d ∷ [] in
      (i % 4 ≡ 0 → unmask key i xs ≡ masked a b c d xs)
      × (i % 4 ≡ 1 → unmask key i xs ≡ masked b c d a xs)
      × (i % 4 ≡ 2 → unmask key i xs ≡ masked c d a b xs)
      × (i % 4 ≡ 3 → unmask key i xs ≡ masked d a b c xs)
unfolding unmask masked
unmask-masked a b c d i [] = (λ h. refl, λ h. refl, λ h. refl, λ h. refl)
unmask-masked a b c d i (x ∷ xs) =
    let (at_0, at_1, at_2, at_3) = unmask-masked a b c d (i + 1) xs in
    (
      λ h.
          let k : key_byte (a ∷ b ∷ c ∷ d ∷ []) i ≡ a = rw (h, key_byte) refl in
          rw (k, at_1 (omega arith)) refl,
      λ h.
          let k : key_byte (a ∷ b ∷ c ∷ d ∷ []) i ≡ b = rw (h, key_byte) refl in
          rw (k, at_2 (omega arith)) refl,
      λ h.
          let k : key_byte (a ∷ b ∷ c ∷ d ∷ []) i ≡ c = rw (h, key_byte) refl in
          rw (k, at_3 (omega arith)) refl,
      λ h.
          let k : key_byte (a ∷ b ∷ c ∷ d ∷ []) i ≡ d = rw (h, key_byte) refl in
          rw (k, at_0 (omega arith)) refl,
    )

-- A frame as RFC 6455 lets a client send it: masked with a key of four bytes.
abbrev pub client_frame : ℕ → ℕ → ℕ → ℕ → Frame → List ℕ
client_frame a b c d (opcode, payload) =
    (128 + opcode % 16) ∷ mask_bit (length_bytes (length payload))
    ++ ((a ∷ b ∷ c ∷ d ∷ []) ++ masked a b c d payload)

-- A frame that a client has sent, its payload masked with the four bytes of the key in turn, is read with
-- its payload unmasked, whatever follows it, when the key and the payload are bytes, the payload is not
-- above the reader's limit and the limit is below 256 to the power 8.
pub read_frame-client_frame :
    (max_size opcode a b c d : ℕ) (payload rest : List ℕ)
    → opcode < 16
    → All IsByte (a ∷ b ∷ c ∷ d ∷ [])
    → All IsByte payload
    → length payload ≤ max_size
    → max_size < 256 ^ 8
    → read_frame max_size (client_frame a b c d (opcode, payload) ++ rest)
      ≡ ok ((opcode, payload), rest)
unfolding read_payload is_masked
read_frame-client_frame max_size opcode a b c d payload rest op key_bytes bytes fits most =
    let key = a ∷ b ∷ c ∷ d ∷ [] in
    let same_mask : masked a b c d payload ≡ unmask key 0 payload =
      sym ((unmask-masked a b c d 0 payload).0 refl) in
    let body = unmask key 0 payload in
    let size = length_bytes-IsRead (length payload) (omega arith) in
    let has_mask : is_masked (128 + size.first) ≡ true = ground (arith, size.small) in
    let same : opcode % 16 ≡ opcode = omega arith in
    let with_key : readexactly 4 (key ++ (body ++ rest)) ≡ ok (key, body ++ rest) =
      readexactly-append key (body ++ rest) in
    let with_body : readexactly (length payload) (body ++ rest) ≡ ok (body, rest) =
      subst (λ n. readexactly n (body ++ rest) ≡ ok (body, rest)) (length-unmask key 0 payload)
        (readexactly-append body rest) in
    rw
      (
        same_mask,
        size.bytes,
        append_assoc size.extended (key ++ body) rest,
        append_assoc key body rest,
      )
      (read_behind max_size opcode (128 + size.first) (length payload) size (key ++ (body ++ rest))
          (omega (arith, size.small)) fits
        ∙ rw (has_mask, with_key, with_body, same, unmask-unmask key 0 payload key_bytes bytes)
            refl)
