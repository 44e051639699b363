-- ===== src/Punch.antt =====
-- client/nat_traversal.py: the hole punch and the classification of a NAT. A socket is what it gives before
-- the deadline, in order: a datagram, a timeout of one read, or an OSError. What is sent is a list of
-- datagrams with where they go, and every send succeeds. The STUN server's answers are the arguments.
pub mod Handshake
pub mod Stun
mod Tests
use local_network_ecosystem.Prelude.{
  ℕ, String, Bool, true, false, not, ◌||◌, Option, none, some, List, [], ◌∷◌, ◌++◌, if◌then◌else◌,
  string_eq, nat_eq, ◌==◌,
}
use local_network_ecosystem.Frame
use local_network_ecosystem.Frame.{
  Result, ok, err, FrameHeader, unpack_frame, make_punch_frame, make_punch_ack_frame, frame_punch,
  frame_punch_ack,
}

pub data PunchState : Type 0 where
  idle punching connected failed closed : PunchState

pub data NatType : Type 0 where
  open_nat full_cone restricted port_restricted symmetric unknown : NatType

abbrev pub Address : Type 0
Address = String × ℕ

pub data Received : Type 0 where
  datagram : List ℕ → Address → Received
  timed_out os_error : Received

abbrev pub Sent : Type 0
Sent = List ℕ × Address

unfoldable pub is_frame_type : List ℕ → ℕ → Bool
is_frame_type wire expected_type = elim (unpack_frame wire) [
  | err e ↦ false
  | ok (h, _, _) ↦ h.type == expected_type
]

unfoldable pub try_extract_payload : List ℕ → List ℕ
try_extract_payload wire = elim (unpack_frame wire) [ err e ↦ [] | ok (_, payload, _) ↦ payload ]

unfoldable pub send_to_all : List ℕ → List Address → List Sent
send_to_all frame [] = []
send_to_all frame (addr ∷ rest) = (frame, addr) ∷ send_to_all frame rest

-- The address of the peer and its public key, or none for a failure.
abbrev pub Punched : Type 0
Punched = Option (Address × List ℕ)

abbrev pub after : List Sent → List Sent × Punched → List Sent × Punched
after first (sent, result) = (first ++ sent, result)

-- What a call of `make_punch_ack_frame` sends.
abbrev pub acknowledgement : Result (List ℕ) → Address → List Sent
acknowledgement (err e) addr = []
acknowledgement (ok ack) addr = (ack, addr) ∷ []

-- The loop of `punch_peer`.
unfoldable pub punch_loop : List ℕ → List Address → List Received → List Sent × Punched
unfolding is_frame_type try_extract_payload send_to_all
punch_loop punch peer_endpoints [] = ([], none)
punch_loop punch peer_endpoints (timed_out ∷ rest) =
    after (send_to_all punch peer_endpoints) (punch_loop punch peer_endpoints rest)
punch_loop punch peer_endpoints (os_error ∷ rest) = ([], none)
punch_loop punch peer_endpoints (datagram wire addr ∷ rest) =
    let later = punch_loop punch peer_endpoints rest in
    if is_frame_type wire frame_punch_ack
    then ([], some (addr, try_extract_payload wire))
    else if is_frame_type wire frame_punch
    then (acknowledgement (make_punch_ack_frame 0 []) addr, some (addr, try_extract_payload wire))
    else later

-- A key that is too long for a frame is the error.
unfoldable pub punch_peer : List Address → List ℕ → List Received → Result (List Sent × Punched)
unfolding punch_loop send_to_all
punch_peer [] ecdh_pubkey received = ok ([], none)
punch_peer (e ∷ es) ecdh_pubkey received = elim (make_punch_frame 0 ecdh_pubkey) [
  | err why ↦ err why
  | ok punch ↦ ok (after (send_to_all punch (e ∷ es)) (punch_loop punch (e ∷ es) received))
]

unfoldable pub accept_punch : List ℕ → List Received → List Sent × Punched
unfolding is_frame_type try_extract_payload
accept_punch ecdh_pubkey [] = ([], none)
accept_punch ecdh_pubkey (timed_out ∷ rest) = ([], none)
accept_punch ecdh_pubkey (os_error ∷ rest) = ([], none)
accept_punch ecdh_pubkey (datagram wire addr ∷ rest) =
    let later = accept_punch ecdh_pubkey rest in
    if is_frame_type wire frame_punch
    then (
      acknowledgement (make_punch_ack_frame 0 ecdh_pubkey) addr,
      some (addr, try_extract_payload wire),
    )
    else later

-- The three probes: to the server, from another socket, and to the server's next port.
unfoldable pub determine_nat_type : Option Address → Option Address → Option Address → NatType
determine_nat_type none second third = unknown
determine_nat_type (some mapped_1) none third = unknown
determine_nat_type (some mapped_1) (some mapped_2) third =
    if not (mapped_2.1 == mapped_1.1) then symmetric else elim third [
      | none ↦ restricted
      | some mapped_3 ↦
          if not (mapped_3.0 == mapped_1.0) || not (mapped_3.1 == mapped_1.1)
          then port_restricted
          else full_cone
    ]
