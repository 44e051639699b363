-- ===== src/Server/Frames.antt =====
-- The relay's queues as the server uses them.
use local_network_ecosystem.Prelude.{
  ◌≡◌, refl, String, Bool, List, [], ◌∷◌, arith, string_eq, eq_iff, Option-cases, inl, inr, ℕ,
}
use local_network_ecosystem.Dict.{get-put}
use local_network_ecosystem.Registry
use local_network_ecosystem.Auth.{Crypto}
use local_network_ecosystem.Networks.{Bcrypt, NetworkManager}
use local_network_ecosystem.Relay
use local_network_ecosystem.Relay.{RelayForwarder}
use local_network_ecosystem.Relay.Writes.{queue_of, queue_of-register, queue_of-drop}
use local_network_ecosystem.Relay.Delivery.{waiting}
use local_network_ecosystem.Protocol
use local_network_ecosystem.Protocol.{
  Payload, ok, err, validate_register, validate_create_network, validate_join_network,
  validate_network_id, validate_peer_id, validate_expose_service, validate_service_id,
}
use local_network_ecosystem.Server.{
  MediationServer, Draws, handle_disconnect, disconnect_all, prune, expire, set_registry,
}
use local_network_ecosystem.Server.Handlers.{
  Command, Outcome, validated, dispatch, heartbeat, create_network, join_network, leave_network,
  list_networks, request_peer_conn, expose_service_command, unexpose_service_command, relay_request,
  other_command, on_heartbeat, on_create_network, on_join_network, on_leave_network,
  on_list_networks, on_request_peer_conn, on_expose_service, on_unexpose_service, on_relay_request,
  command_of,
}
use local_network_ecosystem.Server.Unauthenticated.{receive_unauthenticated}
use local_network_ecosystem.Server.Daemon.{
  unregistered, registered, authenticated, on_command, receive, finish, deliver_relayed, Event,
  message, ended, pruned, expired, handle, run,
}

-- Nothing waits for any client, and no bytes are counted.
pub record IsIdle (relay : RelayForwarder) : Type 0 where
  pub queues : (k : String) → waiting relay k ≡ []
  pub bytes : relay.bytes_relayed ≡ []

validated-IsIdle {ℓ} :
    {A : Type ℓ} (conn : ℕ) (v : Protocol.Result A) (f : A → Outcome) (s : MediationServer)
    → ((a : A) → IsIdle (f a).0.relay)
    → IsIdle s.relay
    → IsIdle (validated conn v f s).0.relay
validated-IsIdle conn (ok a) f s h idle = h a
validated-IsIdle conn (err e) f s h idle = idle

register-IsIdle :
    (a b : String) (r : RelayForwarder) → IsIdle r → IsIdle (Relay.register_relay_path a b r).0
register-IsIdle a b r idle = record {
  queues = λ k. let before = idle.queues k in ground (arith, queue_of-register a b k r);
  bytes = unfold Relay.register_relay_path in unfold Relay.queue_for in ground (arith, idle.bytes);
}

request-IsIdle :
    (m : NetworkManager) (connected : String → Bool) (a b : String) (r : RelayForwarder)
    → IsIdle r
    → IsIdle (Relay.handle_relay_request m connected a b r).0
unfolding Relay.handle_relay_request
request-IsIdle m connected a b r idle = elim (Option-cases (Relay.refusal m a b)) [
  | inl e ↦ rw (e, Relay.handle_relay_request) (register-IsIdle a b r idle)
  | inr (why, e) ↦ rw (e, Relay.handle_relay_request) idle
]

pending-IsIdle :
    (k : String) (r : RelayForwarder) → IsIdle r → IsIdle (Relay.pending_frames (λ raw. raw) k r).0
unfolding Relay.pending_frames
pending-IsIdle k r idle = record {
  queues = λ j. let before = idle.queues j in grind (arith, get-put, eq_iff);
  bytes = ground (arith, idle.bytes);
}

drop-IsIdle : (k : String) (r : RelayForwarder) → IsIdle r → IsIdle (Relay.drop_client k r)
drop-IsIdle k r idle = record {
  queues = λ j. elim (Option-cases (queue_of r j)) [
    | inl e ↦ rw (queue_of-drop k j r, e) (ground arith)
    | inr (q, e) ↦
        let before = idle.queues j in
        let none_waits : q ≡ [] = rw e at before in
        rw (queue_of-drop k j r, e, none_waits) (ground arith)
  ];
  bytes = unfold Relay.drop_client in unfold Relay.keep_others in rw idle.bytes refl;
}

dispatch-IsIdle :
    (bcrypt : Bcrypt) (draws : Draws) (conn : ℕ) (client_id : String) (command : Command)
    (payload : Payload) (s : MediationServer)
    → IsIdle s.relay
    → IsIdle (dispatch bcrypt draws conn client_id command payload s).0.relay
unfolding dispatch
dispatch-IsIdle bcrypt draws conn client_id heartbeat payload s h = unfold on_heartbeat in h
dispatch-IsIdle bcrypt draws conn client_id create_network payload s h =
    unfold on_create_network in
    validated-IsIdle conn (validate_create_network payload) _ s (λ fields. ground (arith, h)) h
dispatch-IsIdle bcrypt draws conn client_id join_network payload s h =
    unfold on_join_network in
    validated-IsIdle conn (validate_join_network payload) _ s (λ fields. ground (arith, h)) h
dispatch-IsIdle bcrypt draws conn client_id leave_network payload s h =
    unfold on_leave_network in
    validated-IsIdle conn (validate_network_id payload) _ s (λ fields. ground (arith, h)) h
dispatch-IsIdle bcrypt draws conn client_id list_networks payload s h = unfold on_list_networks in h
dispatch-IsIdle bcrypt draws conn client_id request_peer_conn payload s h =
    unfold on_request_peer_conn in
    validated-IsIdle conn (validate_peer_id payload) _ s (λ fields. h) h
dispatch-IsIdle bcrypt draws conn client_id expose_service_command payload s h =
    unfold on_expose_service in
    validated-IsIdle conn (validate_expose_service payload) _ s (λ fields. ground (arith, h)) h
dispatch-IsIdle bcrypt draws conn client_id unexpose_service_command payload s h =
    unfold on_unexpose_service in
    validated-IsIdle conn (validate_service_id payload) _ s (λ fields. ground (arith, h)) h
dispatch-IsIdle bcrypt draws conn client_id relay_request payload s h =
    unfold on_relay_request in
    validated-IsIdle conn (validate_peer_id payload) _ s
      (λ fields. request-IsIdle s.networks _ client_id fields s.relay h) h
dispatch-IsIdle bcrypt draws conn client_id other_command payload s h = h

disconnect_all-IsIdle :
    (ids : List String) (s : MediationServer)
    → IsIdle s.relay
    → IsIdle (disconnect_all ids s).0.relay
unfolding disconnect_all handle_disconnect
disconnect_all-IsIdle [] s h = h
disconnect_all-IsIdle (k ∷ ids) s h =
    disconnect_all-IsIdle ids (handle_disconnect k s).0 (drop-IsIdle k s.relay h)

handle-IsIdle :
    (crypto : Crypto) (bcrypt : Bcrypt) (e : Event) (s : MediationServer)
    → IsIdle s.relay
    → IsIdle (handle crypto bcrypt e s).relay
unfolding handle receive finish prune expire on_command deliver_relayed
handle-IsIdle crypto bcrypt (message draws conn peer unregistered type payload) s h =
    let same =
      (receive_unauthenticated crypto bcrypt draws conn peer unregistered type payload s refl).0 in
    rw same.relay h
handle-IsIdle crypto bcrypt (message draws conn peer (registered k) type payload) s h =
    let same =
      (receive_unauthenticated crypto bcrypt draws conn peer (registered k) type payload s
        refl).0 in
    rw same.relay h
handle-IsIdle crypto bcrypt (message draws conn peer (authenticated k) type payload) s h =
    pending-IsIdle k (dispatch bcrypt draws conn k (command_of type) payload s).0.relay
      (dispatch-IsIdle bcrypt draws conn k (command_of type) payload s h)
handle-IsIdle crypto bcrypt (ended conn unregistered) s h = h
handle-IsIdle crypto bcrypt (ended conn (registered k)) s h = h
handle-IsIdle crypto bcrypt (ended conn (authenticated k)) s h = disconnect_all-IsIdle (k ∷ []) s h
handle-IsIdle crypto bcrypt (pruned now timeout) s h =
    disconnect_all-IsIdle (Registry.prune_stale now timeout s.networks.registry).1
      (set_registry (Registry.prune_stale now timeout s.networks.registry).0 s) h
handle-IsIdle crypto bcrypt (expired now) s h = h

-- From a server whose relay holds no frame and has counted no bytes, whatever messages come, connections
-- end and loops run, the relay never holds a frame for any client and never counts a byte, whatever paths
-- it has granted.
pub run-IsIdle :
    (crypto : Crypto) (bcrypt : Bcrypt) (es : List Event) (s : MediationServer)
    → IsIdle s.relay
    → IsIdle (run crypto bcrypt es s).relay
unfolding run
run-IsIdle crypto bcrypt [] s h = h
run-IsIdle crypto bcrypt (e ∷ es) s h =
    run-IsIdle crypto bcrypt es (handle crypto bcrypt e s) (handle-IsIdle crypto bcrypt e s h)
