-- ===== src/Server/Capacity.antt =====
-- How many clients the server holds.
use local_network_ecosystem.Prelude.{
  ℕ, ◌≤◌, ◌≡◌, refl, String, none, List, [], ◌∷◌, arith, length, string_eq, Option-cases, inl, inr,
}
use local_network_ecosystem.Dict.{length-put, length-remove-le}
use local_network_ecosystem.Registry
use local_network_ecosystem.Auth.{Crypto}
use local_network_ecosystem.Networks.{Bcrypt}
use local_network_ecosystem.Protocol
use local_network_ecosystem.Protocol.{
  Payload, ok, err, validate_register, validate_auth_response, validate_create_network,
  validate_join_network, validate_network_id, validate_peer_id, validate_expose_service,
  validate_service_id,
}
use local_network_ecosystem.Server.{
  MediationServer, Draws, handle_disconnect, disconnect_all, prune, expire, set_registry,
}
use local_network_ecosystem.Server.Handlers.{
  Command, Outcome, validated, dispatch, heartbeat, create_network, join_network, leave_network,
  list_networks, request_peer_conn, expose_service_command, unexpose_service_command, relay_request,
  other_command, on_heartbeat, on_create_network, on_join_network, on_leave_network,
  on_list_networks, on_request_peer_conn, on_expose_service, on_unexpose_service, on_relay_request,
  command_of,
}
use local_network_ecosystem.Server.Daemon.{
  unregistered, registered, authenticated, refusal, admit, on_register, on_auth, on_command,
  receive, finish, deliver_relayed, Event, message, ended, pruned, expired, handle, run,
}

-- A command leaves the connections, the limit and the sign-in as they are.
pub record Keeps (s t : MediationServer) : Type 0 where
  pub limit : t.max_clients ≡ s.max_clients
  pub connections : t.writers ≡ s.writers
  pub sign_in : t.auth ≡ s.auth
  pub signed_in : t.authenticated ≡ s.authenticated

Keeps-refl : (s : MediationServer) → Keeps s s
Keeps-refl s = record { limit = refl; connections = refl; sign_in = refl; signed_in = refl }

validated-Keeps {ℓ} :
    {A : Type ℓ} (conn : ℕ) (v : Protocol.Result A) (f : A → Outcome) (s : MediationServer)
    → ((a : A) → Keeps s (f a).0)
    → Keeps s (validated conn v f s).0
validated-Keeps conn (ok a) f s h = h a
validated-Keeps conn (err e) f s h = Keeps-refl s

pub dispatch-Keeps :
    (bcrypt : Bcrypt) (draws : Draws) (conn : ℕ) (client_id : String) (command : Command)
    (payload : Payload) (s : MediationServer)
    → Keeps s (dispatch bcrypt draws conn client_id command payload s).0
unfolding dispatch
dispatch-Keeps bcrypt draws conn client_id heartbeat payload s =
    unfold on_heartbeat in
    record { limit = refl; connections = refl; sign_in = refl; signed_in = refl }
dispatch-Keeps bcrypt draws conn client_id create_network payload s =
    unfold on_create_network in
    validated-Keeps conn (validate_create_network payload) _ s λ fields. record {
      limit = ground arith;
      connections = ground arith;
      sign_in = ground arith;
      signed_in = ground arith;
    }
dispatch-Keeps bcrypt draws conn client_id join_network payload s =
    unfold on_join_network in
    validated-Keeps conn (validate_join_network payload) _ s λ fields. record {
      limit = ground arith;
      connections = ground arith;
      sign_in = ground arith;
      signed_in = ground arith;
    }
dispatch-Keeps bcrypt draws conn client_id leave_network payload s =
    unfold on_leave_network in
    validated-Keeps conn (validate_network_id payload) _ s λ fields. record {
      limit = ground arith;
      connections = ground arith;
      sign_in = ground arith;
      signed_in = ground arith;
    }
dispatch-Keeps bcrypt draws conn client_id list_networks payload s =
    unfold on_list_networks in Keeps-refl s
dispatch-Keeps bcrypt draws conn client_id request_peer_conn payload s =
    unfold on_request_peer_conn in
    validated-Keeps conn (validate_peer_id payload) _ s λ fields. Keeps-refl s
dispatch-Keeps bcrypt draws conn client_id expose_service_command payload s =
    unfold on_expose_service in
    validated-Keeps conn (validate_expose_service payload) _ s λ fields. record {
      limit = ground arith;
      connections = ground arith;
      sign_in = ground arith;
      signed_in = ground arith;
    }
dispatch-Keeps bcrypt draws conn client_id unexpose_service_command payload s =
    unfold on_unexpose_service in
    validated-Keeps conn (validate_service_id payload) _ s λ fields. record {
      limit = ground arith;
      connections = ground arith;
      sign_in = ground arith;
      signed_in = ground arith;
    }
dispatch-Keeps bcrypt draws conn client_id relay_request payload s =
    unfold on_relay_request in
    validated-Keeps conn (validate_peer_id payload) _ s
      λ fields. record { limit = refl; connections = refl; sign_in = refl; signed_in = refl }
dispatch-Keeps bcrypt draws conn client_id other_command payload s = Keeps-refl s

-- No more clients have a connection than the server's limit.
abbrev pub IsWithin : MediationServer → Type 0
IsWithin s = length s.writers ≤ s.max_clients

admit-IsWithin :
    (draws : Draws) (conn : ℕ) (peer : String × ℕ) (client_id public_key : String)
    (s : MediationServer)
    → refusal client_id s ≡ none
    → IsWithin s
    → IsWithin (admit draws conn peer client_id public_key s)
unfolding refusal admit
admit-IsWithin draws conn peer client_id public_key s free h =
    ground (arith, free, length-put client_id conn s.writers)

on_register-IsWithin :
    (draws : Draws) (conn : ℕ) (peer : String × ℕ) (payload : Payload) (s : MediationServer)
    → IsWithin s
    → IsWithin (on_register draws conn peer payload s).0
unfolding on_register
on_register-IsWithin draws conn peer payload s h = go (validate_register payload) refl
  where
    go :
        (v : Protocol.Result (String × String))
        → validate_register payload ≡ v
        → IsWithin (on_register draws conn peer payload s).0
    go (err e) q = ground (arith, q)
    go (ok (client_id, public_key)) q = elim (Option-cases (refusal client_id s)) [
      | inl free ↦ ground (arith, q, free, admit-IsWithin draws conn peer client_id public_key s)
      | inr (why, full) ↦ ground (arith, q, full)
    ]

on_auth-IsWithin :
    (crypto : Crypto) (bcrypt : Bcrypt) (now conn : ℕ) (client_id : String) (payload : Payload)
    (s : MediationServer)
    → IsWithin s
    → IsWithin (on_auth crypto bcrypt now conn client_id payload s).0
unfolding on_auth
on_auth-IsWithin crypto bcrypt now conn client_id payload s h = ground arith

disconnect_all-IsWithin :
    (ids : List String) (s : MediationServer) → IsWithin s → IsWithin (disconnect_all ids s).0
unfolding disconnect_all handle_disconnect
disconnect_all-IsWithin [] s h = h
disconnect_all-IsWithin (k ∷ ids) s h =
    disconnect_all-IsWithin ids (handle_disconnect k s).0
      (omega (arith, length-remove-le k s.writers))

handle-IsWithin :
    (crypto : Crypto) (bcrypt : Bcrypt) (e : Event) (s : MediationServer)
    → IsWithin s
    → IsWithin (handle crypto bcrypt e s)
unfolding handle receive finish prune expire on_command deliver_relayed
handle-IsWithin crypto bcrypt (message draws conn peer unregistered type payload) s h =
    ground (arith, on_register-IsWithin draws conn peer payload s h)
handle-IsWithin crypto bcrypt (message draws conn peer (registered k) type payload) s h =
    ground (arith, on_auth-IsWithin crypto bcrypt draws.now conn k payload s h)
handle-IsWithin crypto bcrypt (message draws conn peer (authenticated k) type payload) s h =
    let kept = dispatch-Keeps bcrypt draws conn k (command_of type) payload s in
    rw (kept.limit, kept.connections) h
handle-IsWithin crypto bcrypt (ended conn unregistered) s h = h
handle-IsWithin crypto bcrypt (ended conn (registered k)) s h = h
handle-IsWithin crypto bcrypt (ended conn (authenticated k)) s h =
    disconnect_all-IsWithin (k ∷ []) s h
handle-IsWithin crypto bcrypt (pruned now timeout) s h =
    disconnect_all-IsWithin (Registry.prune_stale now timeout s.networks.registry).1
      (set_registry (Registry.prune_stale now timeout s.networks.registry).0 s) h
handle-IsWithin crypto bcrypt (expired now) s h = h

-- From a server that holds no more clients than its limit, whatever messages come, connections end and
-- loops run, it never holds more.
pub run-IsWithin :
    (crypto : Crypto) (bcrypt : Bcrypt) (es : List Event) (s : MediationServer)
    → IsWithin s
    → IsWithin (run crypto bcrypt es s)
unfolding run
run-IsWithin crypto bcrypt [] s h = h
run-IsWithin crypto bcrypt (e ∷ es) s h =
    run-IsWithin crypto bcrypt es (handle crypto bcrypt e s) (handle-IsWithin crypto bcrypt e s h)
