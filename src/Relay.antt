-- ===== src/Relay.antt =====
-- server/relay.py: frames queued per destination for clients without a direct tunnel. A deque is a
-- list, its left end first; the base64 of a frame is the parameter `b64encode`. What a handler sends
-- is the list of messages that it returns.
pub mod Writes
pub mod Invariant
pub mod Delivery
pub mod Grants
mod Tests
use local_network_ecosystem.Prelude.{
  ℕ, ◌+◌, ◌/◌, String, Bool, true, false, not, ◌&&◌, ◌||◌, Option, none, some, List, [], ◌∷◌, ◌++◌,
  map, leb, if◌then◌else◌, length, filter, any, contains, set_add, string_eq, pair_eq, ◌==◌,
}
use local_network_ecosystem.Dict
use local_network_ecosystem.Dict.{Dict}
use local_network_ecosystem.Registry
use local_network_ecosystem.Registry.{ClientRecord}
use local_network_ecosystem.Networks
use local_network_ecosystem.Networks.{NetworkManager}

abbrev pub max_relay_queue : ℕ
max_relay_queue = 1024

-- A queued frame with its source.
abbrev pub Queued : Type 0
Queued = String × List ℕ

pub record RelayForwarder : Type 0 where
  pub queues : Dict String (List Queued)
  pub paths : List (String × String)
  pub bytes_relayed : Dict (String × String) ℕ
  pub dropped_frames : ℕ

abbrev pub empty : RelayForwarder
empty = record { queues = []; paths = []; bytes_relayed = []; dropped_frames = 0 }

-- Makes the queue if there is none.
unfoldable pub queue_for : String → RelayForwarder → RelayForwarder
queue_for client_id s = elim (Dict.get client_id s.queues) [
  | none ↦ record s { queues = Dict.put client_id [] s.queues }
  | some _ ↦ s
]

unfoldable pub has_path : RelayForwarder → String → String → Bool
has_path s src_id dst_id = contains (src_id, dst_id) s.paths

unfoldable pub register_relay_path : String → String → RelayForwarder → RelayForwarder × Bool
unfolding queue_for has_path
register_relay_path src_id dst_id s =
    let s' = queue_for src_id (queue_for dst_id s) in
    (
      record s' { paths = set_add (dst_id, src_id) (set_add (src_id, dst_id) s'.paths) },
      not (has_path s' src_id dst_id),
    )

abbrev pub or_zero : Option ℕ → ℕ
or_zero none = 0
or_zero (some n) = n

-- The frame behind the queue, and its bytes counted.
unfoldable pub enqueue : String → String → List ℕ → List Queued → RelayForwarder → RelayForwarder
enqueue src_id dst_id raw_frame queue s = record s {
  queues = Dict.put dst_id (queue ++ (src_id, raw_frame) ∷ []) s.queues;
  bytes_relayed =
      Dict.put (src_id, dst_id)
        (or_zero (Dict.get (src_id, dst_id) s.bytes_relayed) + length raw_frame) s.bytes_relayed;
}

unfoldable pub relay_frame : String → String → List ℕ → RelayForwarder → RelayForwarder × Bool
unfolding has_path enqueue
relay_frame src_id dst_id raw_frame s = elim (Dict.get dst_id s.queues) [
  | none ↦ (s, false)
  | some queue ↦
      if not (has_path s src_id dst_id)
      then (s, false)
      else if leb max_relay_queue (length queue)
      then (record s { dropped_frames = s.dropped_frames + 1 }, false)
      else (enqueue src_id dst_id raw_frame queue s, true)
]

module _ {ℓ} {B : Type ℓ} (b64encode : List ℕ → B) where
  unfoldable pub pending_frames : String → RelayForwarder → RelayForwarder × List (String × B)
  pending_frames dst_id s = elim (Dict.get dst_id s.queues) [
    | none ↦ (s, [])
    | some queue ↦ (
      record s { queues = Dict.put dst_id [] s.queues },
      map (λ item. (item.0, b64encode item.1)) queue,
    )
  ]

abbrev pub not_from : String → Queued → Bool
not_from client_id item = not (item.0 == client_id)

abbrev pub without : String → String × String → Bool
without client_id path = not (path.0 == client_id) && not (path.1 == client_id)

-- The entries of a dictionary by pairs whose key does not hold the client.
unfoldable pub keep_others : String → Dict (String × String) ℕ → Dict (String × String) ℕ
keep_others client_id = filter (λ e. without client_id e.0)

unfoldable pub drop_client : String → RelayForwarder → RelayForwarder
unfolding keep_others
drop_client client_id s = record s {
  queues = Dict.map_values (filter (not_from client_id)) (Dict.remove client_id s.queues);
  paths = filter (without client_id) s.paths;
  bytes_relayed = keep_others client_id s.bytes_relayed;
}

-- The reasons of RELAY_FAILED.
pub data Refusal : Type 0 where
  unknown_peer peer_not_online no_shared_network : Refusal

-- `granted peer src dst` carries the peer and the path "src->dst".
pub data RelayMessage : Type 0 where
  failed : Refusal → RelayMessage
  granted : String → String → String → RelayMessage

-- The client that a message goes to.
abbrev pub Sent : Type 0
Sent = String × RelayMessage

abbrev pub is_none : Option ClientRecord → Bool
is_none none = true
is_none (some r) = false

abbrev pub online_record : Option ClientRecord → Bool
online_record none = false
online_record (some r) = r.online

unfoldable pub share_network : NetworkManager → String → String → Bool
share_network m src_id dst_id =
    any (λ n. contains dst_id (Networks.members m n.network_id)) (Networks.list_for_client m src_id)

-- Why a request is refused.
unfoldable pub refusal : NetworkManager → String → String → Option Refusal
unfolding share_network
refusal m src_id dst_id =
    if is_none (Registry.get m.registry src_id) || is_none (Registry.get m.registry dst_id)
    then some unknown_peer
    else if not (
        online_record (Registry.get m.registry src_id)
        && online_record (Registry.get m.registry dst_id))
    then some peer_not_online
    else if not (share_network m src_id dst_id)
    then some no_shared_network
    else none

-- `connected` tells whether the destination has a control connection.
unfoldable pub handle_relay_request :
    NetworkManager → (String → Bool) → String → String → RelayForwarder → RelayForwarder × List Sent
unfolding refusal
handle_relay_request m connected src_id dst_id s = elim (refusal m src_id dst_id) [
  | some why ↦ (s, (src_id, failed why) ∷ [])
  | none ↦ (
    (register_relay_path src_id dst_id s).0,
    (src_id, granted dst_id src_id dst_id)
        ∷ (if connected dst_id then (dst_id, granted src_id dst_id src_id) ∷ [] else []),
  )
]

pub record Stats : Type 0 where
  pub paths : ℕ
  pub queues : ℕ
  pub bytes_relayed : ℕ
  pub dropped_frames : ℕ

abbrev pub sum_values : Dict (String × String) ℕ → ℕ
sum_values [] = 0
sum_values ((_, n) ∷ d) = n + sum_values d

unfoldable pub stats : RelayForwarder → Stats
stats s = record {
  paths = length s.paths / 2;
  queues = length s.queues;
  bytes_relayed = sum_values s.bytes_relayed;
  dropped_frames = s.dropped_frames;
}
