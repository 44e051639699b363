-- ===== src/Server/Membership.antt =====
-- What the server's messages do to the members of its networks.
use local_network_ecosystem.Prelude.{
  ℕ, ◌≡◌, refl, String, true, none, List, [], ◌∷◌, arith, string_eq, ◌==◌, Option-cases, Bool-cases,
  inl, inr,
}
use local_network_ecosystem.Registry
use local_network_ecosystem.Registry.Views.{is_known}
use local_network_ecosystem.Auth.{Crypto}
use local_network_ecosystem.Networks
use local_network_ecosystem.Networks.{
  Bcrypt, NetworkManager, NetworkRecord, get, is_member, is_banned, password_fits, create, join,
  leave, admit,
}
use local_network_ecosystem.Networks.Services.{expose_service}
use local_network_ecosystem.Networks.Invites.{generate_invite_code, set_code}
use local_network_ecosystem.Networks.Codes.{generate-eq-ok}
use local_network_ecosystem.Networks.Reach.{
  Step, IsSound, Step-IsSound, join_by_invite_code-IsSound, created, registered, unregistered,
  addressed, went_online, heard, left,
}
use local_network_ecosystem.Protocol
use local_network_ecosystem.Protocol.{
  Payload, ok, err, field, validate_create_network, validate_join_network, validate_network_id,
  validate_peer_id, validate_expose_service, validate_service_id, validate_register,
}
use local_network_ecosystem.Server.{
  MediationServer, Draws, handle_disconnect, disconnect_all, prune, expire, set_registry, send,
  network_created, announce_peer_online,
}
use local_network_ecosystem.Server.Handlers.{
  Command, Outcome, validated, fails, with_networks, dispatch, heartbeat, create_network,
  join_network, leave_network, list_networks, request_peer_conn, expose_service_command,
  unexpose_service_command, relay_request, other_command, on_heartbeat, on_create_network,
  on_join_network, on_leave_network, on_list_networks, on_request_peer_conn, on_expose_service,
  on_unexpose_service, on_relay_request, command_of, join_either,
}
use local_network_ecosystem.Server.Daemon
use local_network_ecosystem.Server.Daemon.{
  Phase, authenticated, refusal, on_register, on_auth, on_command, receive, finish, deliver_relayed,
  Event, message, ended, pruned, expired, handle,
}

-- The same members and the same registry.
same-IsSound :
    (m m' : NetworkManager)
    → m'.networks ≡ m.networks
    → m'.registry ≡ m.registry
    → IsSound m
    → IsSound m'
same-IsSound m m' networks registry h = record {
  synced = record {
    agree = λ n c.
        unfold is_member in
        unfold get in
        rw (networks, registry) (unfold get in unfold is_member in h.synced.agree n c);
  };
  distinct = rw networks h.distinct;
}

validated-IsSound {ℓ} :
    {A : Type ℓ} (conn : ℕ) (v : Protocol.Result A) (f : A → Outcome) (s : MediationServer)
    → ((a : A) → IsSound (f a).0.networks)
    → IsSound s.networks
    → IsSound (validated conn v f s).0.networks
validated-IsSound conn (ok a) f s h sound = h a
validated-IsSound conn (err e) f s h sound = sound

generate-IsSound :
    (draws : List String) (fallback : String → String) (n : String) (m : NetworkManager)
    {m' : NetworkManager} {code : String}
    → generate_invite_code draws fallback n m ≡ Networks.ok (m', code)
    → IsSound m
    → IsSound m'
generate-IsSound draws fallback n m {m'} {code} e h = elim (generate-eq-ok draws fallback n m e).2 [
  | inl (_, same) ↦ rw same h
  | inr (_, _, same) ↦ rw same (unfold set_code in same-IsSound m _ refl refl h)
]

module _ (bcrypt : Bcrypt) (draws : Draws) (conn : ℕ) (k : String) (payload : Payload)
    (s : MediationServer) where
  create-IsSound :
      is_known s.networks.registry k ≡ true
      → get s.networks draws.uuid ≡ none
      → IsSound s.networks
      → IsSound (on_create_network bcrypt draws conn k payload s).0.networks
  unfolding on_create_network Networks.chosen_id
  create-IsSound known fresh h =
      validated-IsSound conn (validate_create_network payload) _ s
        (λ fields.
          go fields
            (create bcrypt draws.now draws.uuid draws.salt fields.0 fields.1 k fields.2 none
              s.networks)
            refl)
        h
    where
      coded : NetworkRecord → NetworkManager → Networks.Result (NetworkManager × String) → Outcome
      coded r m' v = elim v [
        | Networks.value_error ↦ fails conn (with_networks m' s)
        | Networks.ok (m'', code) ↦
            let s' = with_networks m'' s in
            (
              s',
              send conn (network_created r.network_id r.name k r.topology code)
                  ∷ announce_peer_online k s',
            )
      ]

      outcome : Networks.Result (NetworkManager × NetworkRecord) → Outcome
      outcome v = elim v [
        | Networks.value_error ↦ fails conn s
        | Networks.ok (m', r) ↦
            coded r m' (generate_invite_code draws.codes draws.fallback r.network_id m')
      ]

      with_code :
          (r : NetworkRecord) (m' : NetworkManager) (v : Networks.Result (NetworkManager × String))
          → generate_invite_code draws.codes draws.fallback r.network_id m' ≡ v
          → IsSound m'
          → IsSound (coded r m' v).0.networks
      with_code r m' Networks.value_error q sound = sound
      with_code r m' (Networks.ok (m'', code)) q sound =
          generate-IsSound draws.codes draws.fallback r.network_id m' q sound

      go :
          (fields : String × String × String) (v : Networks.Result (NetworkManager × NetworkRecord))
          → create bcrypt draws.now draws.uuid draws.salt fields.0 fields.1 k fields.2 none
              s.networks
            ≡ v
          → IsSound (outcome v).0.networks
      go fields Networks.value_error q = h
      go fields (Networks.ok (m', r)) q =
          with_code r m' (generate_invite_code draws.codes draws.fallback r.network_id m') refl (
            Step-IsSound
              (created bcrypt draws.now draws.uuid draws.salt fields.0 fields.1 k fields.2 none q
                fresh known)
              h)

  join-IsSound :
      is_known s.networks.registry k ≡ true
      → IsSound s.networks
      → IsSound (on_join_network bcrypt conn k payload s).0.networks
  unfolding on_join_network join_either
  join-IsSound known h =
      validated-IsSound conn (validate_join_network payload) _ s
        (λ fields.
          let by_id = Step-IsSound (Networks.Reach.joined bcrypt fields.0 k fields.1 known) h in
          let by_code = join_by_invite_code-IsSound bcrypt fields.0 k fields.1 s.networks known h in
          ground (arith, h, by_id, by_code))
        h

  leave-IsSound : IsSound s.networks → IsSound (on_leave_network conn k payload s).0.networks
  unfolding on_leave_network
  leave-IsSound h =
      validated-IsSound conn (validate_network_id payload) _ s
        (λ n. let by_leave = Step-IsSound (left n k) h in ground (arith, by_leave)) h

  expose-IsSound :
      IsSound s.networks → IsSound (on_expose_service draws conn k payload s).0.networks
  unfolding on_expose_service expose_service
  expose-IsSound h =
      validated-IsSound conn (validate_expose_service payload) _ s
        (λ fields. same-IsSound s.networks _ (ground arith) (ground arith) h) h

  dispatch-IsSound :
      (command : Command)
      → is_known s.networks.registry k ≡ true
      → get s.networks draws.uuid ≡ none
      → IsSound s.networks
      → IsSound (dispatch bcrypt draws conn k command payload s).0.networks
  unfolding dispatch
  dispatch-IsSound heartbeat known fresh h =
      unfold on_heartbeat in Step-IsSound (heard draws.now k) h
  dispatch-IsSound create_network known fresh h = create-IsSound known fresh h
  dispatch-IsSound join_network known fresh h = join-IsSound known h
  dispatch-IsSound leave_network known fresh h = leave-IsSound h
  dispatch-IsSound list_networks known fresh h = unfold on_list_networks in h
  dispatch-IsSound request_peer_conn known fresh h =
      unfold on_request_peer_conn in
      validated-IsSound conn (validate_peer_id payload) _ s (λ fields. h) h
  dispatch-IsSound expose_service_command known fresh h = expose-IsSound h
  dispatch-IsSound unexpose_service_command known fresh h =
      unfold on_unexpose_service in
      validated-IsSound conn (validate_service_id payload) _ s
        (λ fields.
          unfold Networks.Services.unexpose_service_owner in
          same-IsSound s.networks _ (ground arith) (ground arith) h)
        h
  dispatch-IsSound relay_request known fresh h =
      unfold on_relay_request in
      validated-IsSound conn (validate_peer_id payload) _ s (λ fields. h) h
  dispatch-IsSound other_command known fresh h = h

disconnect_all-IsSound :
    (ids : List String) (s : MediationServer)
    → IsSound s.networks
    → IsSound (disconnect_all ids s).0.networks
unfolding disconnect_all handle_disconnect
disconnect_all-IsSound [] s h = h
disconnect_all-IsSound (k ∷ ids) s h =
    disconnect_all-IsSound ids (handle_disconnect k s).0 (Step-IsSound (unregistered k) h)

on_register-IsSound :
    (draws : Draws) (conn : ℕ) (peer : String × ℕ) (payload : Payload) (s : MediationServer)
    → IsSound s.networks
    → IsSound (on_register draws conn peer payload s).0.networks
unfolding on_register Daemon.admit
on_register-IsSound draws conn peer payload s h = go (validate_register payload) refl
  where
    go :
        (v : Protocol.Result (String × String))
        → validate_register payload ≡ v
        → IsSound (on_register draws conn peer payload s).0.networks
    go (err e) q = rw (q, on_register) h
    go (ok (k, pem)) q = elim (Option-cases (refusal k s)) [
      | inl free ↦
          rw (q, on_register)
            (rw (free, on_register)
              (Step-IsSound (went_online draws.now k)
                (Step-IsSound (addressed k peer) (Step-IsSound (registered draws.now k pem) h))))
      | inr (why, e) ↦ rw (q, on_register) (rw (e, on_register) h)
    ]

-- The client that has signed in is known, and the drawn uuid names no network.
abbrev pub IsPlausible : Event → MediationServer → Type 0
IsPlausible (message draws conn peer (authenticated k) type payload) s =
    (is_known s.networks.registry k ≡ true) × (get s.networks draws.uuid ≡ none)
IsPlausible _ s = Unit

-- Whatever a client sends or a connection or loop does, the lists of members and the registry stay in
-- step: afterwards a client is a member of a network exactly when its own record lists the network, and
-- no network has two records. A client that has signed in is registered, and a drawn uuid is unused.
pub handle-IsSound :
    (crypto : Crypto) (bcrypt : Bcrypt) (e : Event) (s : MediationServer)
    → IsPlausible e s
    → IsSound s.networks
    → IsSound (handle crypto bcrypt e s).networks
unfolding handle receive finish prune expire on_command deliver_relayed
handle-IsSound crypto bcrypt (message draws conn peer Daemon.unregistered type payload) s p h =
    elim (Bool-cases (type == "REGISTER")) [
      | inl yes_register ↦
          rw (yes_register, handle) (on_register-IsSound draws conn peer payload s h)
      | inr no_register ↦ rw (no_register, handle) h
    ]
handle-IsSound crypto bcrypt (message draws conn peer (Daemon.registered k) type payload) s p h =
    unfold on_auth in ground (arith, h)
handle-IsSound crypto bcrypt (message draws conn peer (authenticated k) type payload) s
      (known, fresh) h =
    dispatch-IsSound bcrypt draws conn k payload s (command_of type) known fresh h
handle-IsSound crypto bcrypt (ended conn Daemon.unregistered) s p h = h
handle-IsSound crypto bcrypt (ended conn (Daemon.registered k)) s p h = h
handle-IsSound crypto bcrypt (ended conn (authenticated k)) s p h =
    disconnect_all-IsSound (k ∷ []) s h
handle-IsSound crypto bcrypt (pruned now timeout) s p h =
    disconnect_all-IsSound (Registry.prune_stale now timeout s.networks.registry).1
      (set_registry (Registry.prune_stale now timeout s.networks.registry).0 s)
      (Step-IsSound (Networks.Reach.pruned now timeout) h)
handle-IsSound crypto bcrypt (expired now) s p h = h
