-- ===== src/Websocket.antt =====
-- proxy/websocket.py: the frames of a WebSocket, read from one side and written to the other. Bytes are
-- numbers below 256. A reader is what its peer will still send, up to its end; a peer that sends nothing for
-- the timeout is one that has ended, since the relay stops for either.
pub mod Upgrade
pub mod Mask
pub mod RoundTrip
pub mod Written
pub mod Relaying
mod Tests
use Prim.Native.Nat.{bit_xor}
use local_network_ecosystem.Prelude.{
  ℕ, zero, suc, ◌+◌, ◌*◌, ◌/◌, ◌%◌, Bool, true, false, not, ◌&&◌, ◌||◌, Option, none, some, List,
  [], ◌∷◌, ◌++◌, ltb, leb, if◌then◌else◌, length, take, drop, get_elem?, nat_eq, ◌==◌,
}

abbrev pub op_close : ℕ
op_close = 8

abbrev pub op_ping : ℕ
op_ping = 9

abbrev pub op_pong : ℕ
op_pong = 10

-- IncompleteReadError, and the WebSocketError of a frame that is too large.
pub data ReadError : Type 0 where
  incomplete too_large : ReadError

pub data Result {ℓ} (A : Type ℓ) : Type ℓ where
  ok : A → Result A
  err : ReadError → Result A

infixl 5 ◌>>=◌
abbrev pub ◌>>=◌ {ℓ κ} : {A : Type ℓ} {B : Type κ} → Result A → (A → Result B) → Result B
ok a >>= f = f a
err e >>= f = err e

-- An opcode and a payload.
abbrev pub Frame : Type 0
Frame = ℕ × List ℕ

-- What is read, and what is left to read.
unfoldable pub readexactly : ℕ → List ℕ → Result (List ℕ × List ℕ)
readexactly n s = if leb n (length s) then ok (take n s, drop n s) else err incomplete

-- `struct` at "!H" and "!Q": the highest byte first.
unfoldable pub to_be : ℕ → ℕ → List ℕ
to_be zero n = []
to_be (suc w) n = to_be w (n / 256) ++ (n % 256) ∷ []

unfoldable pub from_be : ℕ → List ℕ → ℕ
from_be acc [] = acc
from_be acc (b ∷ bs) = from_be (acc * 256 + b) bs

-- An extended length, and what is left to read.
abbrev pub sized : List ℕ × List ℕ → Result (ℕ × List ℕ)
sized (ext, rest) = ok (from_be 0 ext, rest)

-- The length that the second byte announces, or the bytes after it.
unfoldable pub read_length : ℕ → List ℕ → Result (ℕ × List ℕ)
unfolding readexactly from_be
read_length n s =
    if n == 126
    then readexactly 2 s >>= sized
    else if n == 127
    then readexactly 8 s >>= sized
    else ok (n, s)

-- `mask_key[i % 4]`
unfoldable pub key_byte : List ℕ → ℕ → ℕ
key_byte key i = elim (get_elem? key (i % 4)) [ none ↦ 0 | some k ↦ k ]

-- The payload from its `i`-th byte on.
unfoldable pub unmask : List ℕ → ℕ → List ℕ → List ℕ
unfolding key_byte
unmask key i [] = []
unmask key i (b ∷ bs) = bit_xor b (key_byte key i) ∷ unmask key (i + 1) bs

unfoldable pub is_masked : ℕ → Bool
is_masked byte1 = not (byte1 / 128 % 2 == 0)

-- The masking key and the payload, behind the length.
unfoldable pub read_payload : Bool → ℕ → List ℕ → Result (List ℕ × List ℕ)
unfolding readexactly unmask
read_payload masked n s =
    if masked
    then (readexactly 4 s >>= λ key.
        readexactly n key.1 >>= λ body. ok (unmask key.0 0 body.0, body.1))
    else readexactly n s

abbrev pub framed : ℕ → List ℕ × List ℕ → Result (Frame × List ℕ)
framed opcode (payload, rest) = ok ((opcode, payload), rest)

unfoldable pub read_frame : ℕ → List ℕ → Result (Frame × List ℕ)
unfolding read_length read_payload is_masked
read_frame max_size (byte0 ∷ byte1 ∷ s) = read_length (byte1 % 128) s >>= λ size.
    if ltb max_size size.0
    then err too_large
    else read_payload (is_masked byte1) size.0 size.1 >>= framed (byte0 % 16)
read_frame max_size _ = err incomplete

-- The length as a frame states it, without the mask bit.
unfoldable pub length_bytes : ℕ → List ℕ
unfolding to_be
length_bytes n =
    if ltb n 126 then n ∷ [] else if ltb n 65536 then 126 ∷ to_be 2 n else 127 ∷ to_be 8 n

unfoldable pub send_frame : Frame → List ℕ
unfolding length_bytes
send_frame (opcode, payload) = (128 + opcode % 16) ∷ length_bytes (length payload) ++ payload

-- What a frame is passed on as: a ping as a pong.
unfoldable pub passed_on : Frame → Frame
passed_on (opcode, payload) = if opcode == op_ping then (op_pong, payload) else (opcode, payload)

-- The two sides of a relay, and what has been written to them.
pub record Relay : Type 0 where
  pub max_message_size : ℕ
  pub from_client : List ℕ
  pub from_upstream : List ℕ
  pub to_client : List ℕ
  pub to_upstream : List ℕ
  pub done : Bool

-- One turn of `_relay_one_way`, a frame read and passed on: what is written, what is left to read, and whether the relay is done.
unfoldable pub relay_one : ℕ → List ℕ → List ℕ × List ℕ × Bool
unfolding read_frame passed_on send_frame
relay_one max_size reader = elim (read_frame max_size reader) [
  | err e ↦ ([], reader, true)
  | ok ((opcode, payload), rest) ↦
      (send_frame (passed_on (opcode, payload)), rest, opcode == op_close)
]

-- Whose turn it is: one of the two directions, or the ping loop.
pub data Turn : Type 0 where
  client upstream ping : Turn

unfoldable pub turn : Turn → Relay → Relay
unfolding relay_one
turn t r =
    let (up, left_of_client, up_done) = relay_one r.max_message_size r.from_client in
    let (down, left_of_upstream, down_done) = relay_one r.max_message_size r.from_upstream in
    if r.done then r else elim t [
      | client ↦ record r {
        to_upstream = r.to_upstream ++ up;
        from_client = left_of_client;
        done = up_done;
      }
      | upstream ↦ record r {
        to_client = r.to_client ++ down;
        from_upstream = left_of_upstream;
        done = down_done;
      }
      | ping ↦ record r { to_upstream = r.to_upstream ++ send_frame (op_ping, []) }
    ]

-- The two directions and the ping loop, in the order in which they come to run.
unfoldable pub relay : List Turn → Relay → Relay
unfolding turn
relay [] r = r
relay (t ∷ ts) r = relay ts (turn t r)

-- `close`: what is written to either side, the first time.
unfoldable pub close : Bool → ℕ → List ℕ → Bool × List ℕ
unfolding to_be send_frame
close closing code reason =
    if closing then (true, []) else (true, send_frame (op_close, to_be 2 code ++ reason))
