-- ===== src/Punch/Handshake.antt =====
-- What two peers learn of each other's key.
use local_network_ecosystem.Prelude.{
  ℕ, ◌≡◌, refl, ap, sym, ◌∙◌, none, some, List, [], ◌∷◌, nat_eq, ◌==◌,
}
use mathlib.Core.List.{append-nil}
use local_network_ecosystem.Frame
use local_network_ecosystem.Frame.{
  Result, ok, err, FrameHeader, pack_frame, unpack_frame, make_punch_frame, make_punch_ack_frame,
  frame_punch, frame_punch_ack, frame_version, tag_or_zeros, gcm_tag_size,
}
use local_network_ecosystem.Frame.RoundTrip.{unpack_frame-pack_frame}
use local_network_ecosystem.Punch.{
  Address, Received, datagram, is_frame_type, try_extract_payload, punch_loop, accept_punch,
}

-- What a frame that was packed with this payload is taken for.
record IsFrame (type : ℕ) (payload wire : List ℕ) : Type 0 where
  typed : (t : ℕ) → is_frame_type wire t ≡ (type == t)
  carried : try_extract_payload wire ≡ payload

pack_frame-IsFrame :
    (type : ℕ) (payload wire : List ℕ)
    → pack_frame type payload 0 frame_version none ≡ ok wire
    → IsFrame type payload wire
unfolding is_frame_type try_extract_payload
pack_frame-IsFrame type payload wire e =
    let read =
      ap unpack_frame (sym (append-nil wire))
      ∙ unpack_frame-pack_frame type payload 0 frame_version none [] wire e in
    record {
      typed = λ t. rw (read, is_frame_type) refl;
      carried = rw (read, try_extract_payload) refl;
    }

punch-IsFrame :
    (key wire : List ℕ) → make_punch_frame 0 key ≡ ok wire → IsFrame frame_punch key wire
unfolding make_punch_frame
punch-IsFrame key wire e = pack_frame-IsFrame frame_punch key wire e

ack-IsFrame :
    (key wire : List ℕ) → make_punch_ack_frame 0 key ≡ ok wire → IsFrame frame_punch_ack key wire
unfolding make_punch_ack_frame
ack-IsFrame key wire e = pack_frame-IsFrame frame_punch_ack key wire e

punch_loop-ack :
    (key wire punch : List ℕ) (endpoints : List Address) (addr : Address) (rest : List Received)
    → make_punch_ack_frame 0 key ≡ ok wire
    → punch_loop punch endpoints (datagram wire addr ∷ rest) ≡ ([], some (addr, key))
unfolding punch_loop
punch_loop-ack key wire punch endpoints addr rest e =
    let f = ack-IsFrame key wire e in rw (f.typed frame_punch_ack, f.carried) refl

-- A client that punches and one that accepts learn each other's key: the first gets the key of the second
-- with the answer that its punch was given, whatever comes after.
pub accept_punch-punch_loop :
    (our_key their_key wire answer punch : List ℕ) (endpoints : List Address)
    (ours theirs : Address) (rest rest' : List Received)
    → make_punch_frame 0 our_key ≡ ok wire
    → make_punch_ack_frame 0 their_key ≡ ok answer
    → (accept_punch their_key (datagram wire ours ∷ rest)
        ≡ ((answer, ours) ∷ [], some (ours, our_key)))
      × (punch_loop punch endpoints (datagram answer theirs ∷ rest')
          ≡ ([], some (theirs, their_key)))
unfolding accept_punch
accept_punch-punch_loop our_key their_key wire answer punch endpoints ours theirs rest rest' e a =
    let f = punch-IsFrame our_key wire e in
    (
      rw (f.typed frame_punch, a, f.carried) refl,
      punch_loop-ack their_key answer punch endpoints theirs rest' a,
    )

empty_ack : (answer : List ℕ) × (make_punch_ack_frame 0 [] ≡ ok answer)
unfolding make_punch_ack_frame pack_frame Frame.pack_header
empty_ack = (_, refl)

-- Two clients that punch each other do not: the one that is answered has punched through with an empty key,
-- although the other has learnt its key.
pub punch_loop-keyless :
    (their_key wire punch punch' : List ℕ) (endpoints endpoints' : List Address)
    (ours theirs : Address) (rest rest' : List Received)
    → make_punch_frame 0 their_key ≡ ok wire
    → (answer : List ℕ) × (punch_loop punch endpoints (datagram wire theirs ∷ rest)
        ≡ ((answer, theirs) ∷ [], some (theirs, their_key)))
      × (punch_loop punch' endpoints' (datagram answer ours ∷ rest') ≡ ([], some (ours, [])))
unfolding punch_loop
punch_loop-keyless their_key wire punch punch' endpoints endpoints' ours theirs rest rest' e =
    let f = punch-IsFrame their_key wire e in
    let (answer, a) = empty_ack in
    (
      answer,
      rw (f.typed frame_punch_ack, f.typed frame_punch, a, f.carried) refl,
      punch_loop-ack [] answer punch' endpoints' ours rest' a,
    )
