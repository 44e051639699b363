-- ===== src/Server/Handlers.antt =====
-- The handlers of an authenticated client's commands, and the dispatch over them.
use local_network_ecosystem.Prelude.{
  ℕ, false, String, Option, none, some, List, [], ◌∷◌, map, if◌then◌else◌, string_eq, ◌==◌,
}
use local_network_ecosystem.Dict
use local_network_ecosystem.Dict.{Dict}
use local_network_ecosystem.Registry
use local_network_ecosystem.Networks
use local_network_ecosystem.Networks.{Bcrypt, NetworkManager, NetworkRecord, network_to_dict}
use local_network_ecosystem.Networks.Services.{expose_service, unexpose_service_owner}
use local_network_ecosystem.Networks.Invites.{generate_invite_code, join_by_invite_code}
use local_network_ecosystem.Relay
use local_network_ecosystem.Protocol
use local_network_ecosystem.Protocol.{
  Payload, Value, text, other, ok, err, field, is_true, validate_create_network,
  validate_join_network, validate_network_id, validate_peer_id, validate_service_id,
  validate_expose_service,
}
use local_network_ecosystem.Server.{
  MediationServer, Draws, Effect, send, Message, Code, error, heartbeat_ack, network_created,
  network_joined, network_left, network_list, peer_endpoints, service_removed, relay,
  invalid_message, unknown_message, internal, network_banned, wrong_password, network_not_found,
  not_member, no_shared_network, peer_unavailable, no_network, service_not_found, set_registry,
  announce_peer_online, announce_peer_offline, broadcast_service,
}

-- The types of the commands that are dispatched, and all others.
pub data Command : Type 0 where
  heartbeat create_network join_network leave_network list_networks request_peer_conn : Command
  expose_service_command unexpose_service_command relay_request other_command : Command

-- MSG_* of common/constants.py
unfoldable pub command_of : String → Command
command_of type =
    if type == "HEARTBEAT"
    then heartbeat
    else if type == "CREATE_NETWORK"
    then create_network
    else if type == "JOIN_NETWORK"
    then join_network
    else if type == "LEAVE_NETWORK"
    then leave_network
    else if type == "LIST_NETWORKS"
    then list_networks
    else if type == "REQUEST_PEER_CONN"
    then request_peer_conn
    else if type == "EXPOSE_SERVICE"
    then expose_service_command
    else if type == "UNEXPOSE_SERVICE"
    then unexpose_service_command
    else if type == "RELAY_REQUEST"
    then relay_request
    else other_command

abbrev pub Outcome : Type 0
Outcome = MediationServer × List Effect

abbrev pub answer : ℕ → Message → MediationServer → Outcome
answer conn msg s = (s, send conn msg ∷ [])

abbrev pub with_networks : NetworkManager → MediationServer → MediationServer
with_networks m s = record s { networks = m }

-- What an exception in a handler ends with.
abbrev pub fails : ℕ → MediationServer → Outcome
fails conn s = answer conn (error internal) s

-- A handler behind its validation.
abbrev pub validated {ℓ} :
    {A : Type ℓ} → ℕ → Protocol.Result A → (A → Outcome) → MediationServer → Outcome
validated conn (ok a) f s = f a
validated conn (err e) f s = answer conn (error (invalid_message e)) s

-- `payload.get("ts", 0.0)`
unfoldable pub timestamp : Payload → Value
timestamp payload = elim (Dict.get "ts" payload) [ none ↦ other false "0.0" | some v ↦ v ]

unfoldable pub on_heartbeat : ℕ → ℕ → String → Payload → MediationServer → Outcome
unfolding timestamp
on_heartbeat now conn client_id payload s =
    answer conn (heartbeat_ack (timestamp payload))
      (set_registry (Registry.heartbeat now client_id s.networks.registry).0 s)

-- Once the network is joined.
abbrev pub joined : ℕ → String → String → String → MediationServer → Outcome
joined conn client_id network_id name s =
    (s, send conn (network_joined network_id name) ∷ announce_peer_online client_id s)

unfoldable pub on_leave_network : ℕ → String → Payload → MediationServer → Outcome
on_leave_network conn client_id payload s =
    validated conn (validate_network_id payload)
      (λ network_id.
        let m' = (Networks.leave network_id client_id s.networks).0 in
        let s' = with_networks m' s in
        if (Networks.leave network_id client_id s.networks).1
        then (
          s',
          send conn (network_left network_id) ∷ announce_peer_offline client_id network_id s',
        )
        else answer conn (error not_member) s')
      s

unfoldable pub on_list_networks : ℕ → String → MediationServer → Outcome
on_list_networks conn client_id s =
    answer conn
      (network_list (map (network_to_dict none) (Networks.list_for_client s.networks client_id))) s

-- The first of the client's networks that has the peer.
unfoldable pub first_shared : NetworkManager → String → List String → Option String
first_shared m peer_id [] = none
first_shared m peer_id (network_id ∷ rest) =
    let later = first_shared m peer_id rest in
    if Networks.is_member m network_id peer_id then some network_id else later

-- The endpoints that a request for a peer is answered with, or the reason why it is not.
unfoldable pub endpoints_for : NetworkManager → String → String → Message
unfolding first_shared
endpoints_for m client_id peer_id =
    elim (first_shared m peer_id (Registry.networks_for m.registry client_id)) [
      | none ↦ error no_shared_network
      | some network_id ↦ elim (Networks.shared_endpoints_for m network_id client_id peer_id) [
        | none ↦ error peer_unavailable
        | some [] ↦ error peer_unavailable
        | some (e ∷ es) ↦ peer_endpoints peer_id (e ∷ es)
      ]
    ]

unfoldable pub on_request_peer_conn : ℕ → String → Payload → MediationServer → Outcome
unfolding endpoints_for
on_request_peer_conn conn client_id payload s =
    validated conn (validate_peer_id payload)
      (λ peer_id. answer conn (endpoints_for s.networks client_id peer_id) s) s

-- `payload.get("network_id") or networks[0].network_id`; a value that is no text names no network, and
-- the call of expose_service then raises.
abbrev pub service_network : Value → NetworkRecord → Option String
service_network (text id) first = some (if id == "" then first.network_id else id)
service_network v first = if is_true v then none else some first.network_id

-- expose_service returns the id of the service, and the handler reads fields of a record from it: this
-- raises, after the service has been registered.
unfoldable pub on_expose_service : Draws → ℕ → String → Payload → MediationServer → Outcome
on_expose_service draws conn client_id payload s =
    validated conn (validate_expose_service payload)
      (λ fields. elim (Networks.list_for_client s.networks client_id) [
        | [] ↦ answer conn (error no_network) s
        | first ∷ rest ↦ elim (service_network (field "network_id" payload) first) [
          | none ↦ fails conn s
          | some network_id ↦
              elim (expose_service draws.now draws.service_id network_id client_id fields.0 fields.1
                fields.2 fields.3 s.networks) [
                  | Networks.value_error ↦ fails conn s
                  | Networks.ok (m', id) ↦ fails conn (with_networks m' s)
                ]
        ]
      ])
      s

unfoldable pub on_unexpose_service : ℕ → String → Payload → MediationServer → Outcome
on_unexpose_service conn client_id payload s =
    validated conn (validate_service_id payload)
      (λ service_id.
        let (m', found) = unexpose_service_owner service_id client_id s.networks in
        let s' = with_networks m' s in
        elim found [
          | none ↦ answer conn (error service_not_found) s'
          | some network_id ↦ (s', broadcast_service network_id (service_removed service_id) s')
        ])
      s

unfoldable pub relay_to : Dict String ℕ → List Relay.Sent → List Effect
relay_to writers [] = []
relay_to writers ((to, msg) ∷ rest) =
    let later = relay_to writers rest in
    elim (Dict.get to writers) [ none ↦ later | some c ↦ send c (relay msg) ∷ later ]

-- What the relay sends: the first message to the requester's connection, the other to the peer's.
unfoldable pub relay_sends : ℕ → Dict String ℕ → List Relay.Sent → List Effect
unfolding relay_to
relay_sends conn writers [] = []
relay_sends conn writers ((_, msg) ∷ rest) = send conn (relay msg) ∷ relay_to writers rest

unfoldable pub on_relay_request : ℕ → String → Payload → MediationServer → Outcome
unfolding relay_sends
on_relay_request conn client_id payload s =
    validated conn (validate_peer_id payload)
      (λ peer_id.
        let (relay', sent) =
          Relay.handle_relay_request s.networks (λ k. Dict.has k s.writers) client_id peer_id
            s.relay in
        (record s { relay = relay' }, relay_sends conn s.writers sent))
      s

module _ (bcrypt : Bcrypt) where
  unfoldable pub on_create_network : Draws → ℕ → String → Payload → MediationServer → Outcome
  on_create_network draws conn client_id payload s =
      validated conn (validate_create_network payload)
        (λ fields.
          elim (Networks.create bcrypt draws.now draws.uuid draws.salt fields.0 fields.1 client_id
            fields.2 none s.networks) [
              | Networks.value_error ↦ fails conn s
              | Networks.ok (m', r) ↦
                  elim (generate_invite_code draws.codes draws.fallback r.network_id m') [
                    | Networks.value_error ↦ fails conn (with_networks m' s)
                    | Networks.ok (m'', code) ↦
                        let s' = with_networks m'' s in
                        (
                          s',
                          send conn (network_created r.network_id r.name client_id r.topology code)
                              ∷ announce_peer_online client_id s',
                        )
                  ]
            ])
        s

  -- By the network's id if there is such a network, else by the invite code.
  unfoldable pub join_either :
      String → String → String → NetworkManager → NetworkManager × Option NetworkRecord × Code
  join_either id_or_code client_id password m = elim (Networks.get m id_or_code) [
    | some r ↦
        let (m', done) = Networks.join bcrypt id_or_code client_id password m in
        (m', (if done then some r else none), wrong_password)
    | none ↦
        let (m', found) = join_by_invite_code bcrypt id_or_code client_id password m in
        (m', found, network_not_found)
  ]

  unfoldable pub on_join_network : ℕ → String → Payload → MediationServer → Outcome
  unfolding join_either
  on_join_network conn client_id payload s =
      validated conn (validate_join_network payload)
        (λ fields.
          if Networks.is_banned s.networks fields.0
          then answer conn (error network_banned) s
          else let (m', found, code) = join_either fields.0 client_id fields.1 s.networks in
            let s' = with_networks m' s in
            elim found [
              | none ↦ answer conn (error code) s'
              | some r ↦ joined conn client_id r.network_id r.name s'
            ])
        s

  -- `_dispatch`
  unfoldable pub dispatch : Draws → ℕ → String → Command → Payload → MediationServer → Outcome
  unfolding on_heartbeat on_create_network on_join_network on_leave_network on_list_networks
      on_request_peer_conn on_expose_service on_unexpose_service on_relay_request
  dispatch draws conn client_id heartbeat payload s =
      on_heartbeat draws.now conn client_id payload s
  dispatch draws conn client_id create_network payload s =
      on_create_network draws conn client_id payload s
  dispatch draws conn client_id join_network payload s = on_join_network conn client_id payload s
  dispatch draws conn client_id leave_network payload s = on_leave_network conn client_id payload s
  dispatch draws conn client_id list_networks payload s = on_list_networks conn client_id s
  dispatch draws conn client_id request_peer_conn payload s =
      on_request_peer_conn conn client_id payload s
  dispatch draws conn client_id expose_service_command payload s =
      on_expose_service draws conn client_id payload s
  dispatch draws conn client_id unexpose_service_command payload s =
      on_unexpose_service conn client_id payload s
  dispatch draws conn client_id relay_request payload s = on_relay_request conn client_id payload s
  dispatch draws conn client_id other_command payload s = answer conn (error unknown_message) s
