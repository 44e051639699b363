-- ===== src/Exposure.antt =====
-- client/service_exposure.py: the services that a client exposes, and the streams to them. A socket or a
-- writer is a number; the ids are drawn. A text of a stream frame is its ASCII bytes.
pub mod Streams
mod Tests
use local_network_ecosystem.Prelude.{
  ℕ, ◌+◌, ◌-◌, String, Bool, true, false, not, ◌&&◌, Option, none, some, List, [], ◌∷◌, ◌++◌, ltb,
  if◌then◌else◌, length, take, drop, replicate, nat_eq, string_eq, ◌==◌,
}
use local_network_ecosystem.Dict
use local_network_ecosystem.Dict.{Dict}
use local_network_ecosystem.Registry.{values}

pub record ServiceRecord : Type 0 where
  pub service_id : String
  pub name : String
  pub protocol : String
  pub local_host : String
  pub local_port : ℕ
  pub created_at : ℕ

pub record ActiveStream : Type 0 where
  pub stream_id : String
  pub service_id : String
  pub peer_id : String
  pub local_writer : Option ℕ
  pub udp_transport : Option ℕ
  pub created_at : ℕ

pub record ServiceExposureManager : Type 0 where
  pub has_control : Bool
  pub services : Dict String ServiceRecord
  pub streams : Dict String ActiveStream
  pub udp_sockets : Dict String ℕ
  pub stream_queues : Dict String (List (List ℕ))

-- What goes to the server, and what is closed.
pub data Effect : Type 0 where
  expose_service : String → String → String → ℕ → Effect
  unexpose_service : String → Effect
  close : ℕ → Effect

abbrev pub if_control : ServiceExposureManager → Effect → List Effect
if_control m e = if m.has_control then e ∷ [] else []

-- The message to the server does not carry the id.
unfoldable pub expose :
    ℕ
    → String
    → String
    → String
    → String
    → ℕ
    → ServiceExposureManager
    → ServiceExposureManager × String × List Effect
expose now service_id name protocol local_host local_port m =
    let r : ServiceRecord = record {
      service_id = service_id;
      name = name;
      protocol = protocol;
      local_host = local_host;
      local_port = local_port;
      created_at = now;
    } in
    (
      record m { services = Dict.put service_id r m.services },
      service_id,
      if_control m (expose_service name protocol local_host local_port),
    )

abbrev pub close_effect : Option ℕ → List Effect
close_effect none = []
close_effect (some n) = close n ∷ []

unfoldable pub close_stream :
    ActiveStream → ServiceExposureManager → ServiceExposureManager × List Effect
close_stream stream m = (
  record m {
    streams = Dict.remove stream.stream_id m.streams;
    stream_queues = Dict.remove stream.stream_id m.stream_queues;
  },
  close_effect stream.local_writer,
)

-- The loop of `unexpose` over the streams.
unfoldable pub close_streams_of :
    String → List ActiveStream → ServiceExposureManager → ServiceExposureManager × List Effect
unfolding close_stream
close_streams_of service_id [] m = (m, [])
close_streams_of service_id (s ∷ ss) m =
    let (m', closed) = close_stream s m in
    let (m'', later) = close_streams_of service_id ss m' in
    let rest = close_streams_of service_id ss m in
    if s.service_id == service_id then (m'', closed ++ later) else rest

unfoldable pub unexpose : String → ServiceExposureManager → ServiceExposureManager × List Effect
unfolding close_streams_of
unexpose service_id m = elim (Dict.get service_id m.services) [
  | none ↦ (m, [])
  | some r ↦
      let m' = record m { services = Dict.remove service_id m.services } in
      let (m'', closed) = close_streams_of service_id (values m.streams) m' in
      (
        record m'' { udp_sockets = Dict.remove service_id m''.udp_sockets },
        closed
            ++ close_effect (Dict.get service_id m''.udp_sockets)
            ++ if_control m (unexpose_service service_id),
      )
]

-- The stream is filed; a task of its own then connects it.
unfoldable pub handle_incoming_stream :
    ℕ → String → String → String → ServiceExposureManager → ServiceExposureManager
handle_incoming_stream now service_id stream_id peer_id m = elim (Dict.get service_id m.services) [
  | none ↦ m
  | some r ↦
      let s : ActiveStream = record {
        stream_id = stream_id;
        service_id = service_id;
        peer_id = peer_id;
        local_writer = none;
        udp_transport = none;
        created_at = now;
      } in
      record m { streams = Dict.put stream_id s m.streams }
]

-- A queue has no bound.
unfoldable pub feed_stream_data : String → List ℕ → ServiceExposureManager → ServiceExposureManager
feed_stream_data stream_id bytes m = elim (Dict.get stream_id m.stream_queues) [
  | none ↦ m
  | some queue ↦ record m {
    stream_queues = Dict.put stream_id (queue ++ bytes ∷ []) m.stream_queues;
  }
]

unfoldable pub list_exposed : ServiceExposureManager → List ServiceRecord
list_exposed m = values m.services

-- `text[:36].ljust(36, b"\x00")`
unfoldable pub padded : List ℕ → List ℕ
padded id = take 36 id ++ replicate (36 - length (take 36 id)) 0

-- `text.rstrip(b"\x00")`
unfoldable pub stripped : List ℕ → List ℕ
stripped [] = []
stripped (b ∷ bs) = elim (stripped bs) [ [] ↦ if b == 0 then [] else b ∷ [] | c ∷ cs ↦ b ∷ c ∷ cs ]

-- The payload that `_send_stream_frame` hands to the tunnel.
unfoldable pub stream_payload : List ℕ → List ℕ → List ℕ → List ℕ
unfolding padded
stream_payload service_id stream_id bytes = padded service_id ++ (padded stream_id ++ bytes)

unfoldable pub decode_stream_frame : List ℕ → List ℕ × List ℕ × List ℕ
unfolding stripped
decode_stream_frame bytes =
    if ltb (length bytes) 72
    then ([], [], bytes)
    else (stripped (take 36 bytes), stripped (take 36 (drop 36 bytes)), drop 72 bytes)
