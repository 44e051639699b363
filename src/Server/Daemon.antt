-- ===== src/Server/Daemon.antt =====
-- A connection from its first message to its end, and what it does to the server.
use local_network_ecosystem.Prelude.{
  ℕ, String, true, false, not, ◌&&◌, Option, none, some, List, [], ◌∷◌, ◌++◌, leb, if◌then◌else◌,
  length, string_eq, nat_eq, ◌==◌,
}
use local_network_ecosystem.Dict
use local_network_ecosystem.Dict.{Dict}
use local_network_ecosystem.Registry
use local_network_ecosystem.Auth
use local_network_ecosystem.Auth.{Crypto}
use local_network_ecosystem.Networks.{Bcrypt}
use local_network_ecosystem.Relay
use local_network_ecosystem.Protocol.{
  Payload, codes, validate_register, validate_auth_response, ok, err,
}
use local_network_ecosystem.Server.{
  MediationServer, Draws, Effect, send, close, Code, error, auth_challenge, auth_ok, relay_frame,
  register_required, auth_required, invalid_register, server_full, banned, auth_failed,
  invalid_auth, set_registry, announce_peer_online, handle_disconnect, prune, expire,
}
use local_network_ecosystem.Server.Handlers.{command_of, dispatch}

-- What a connection has come to.
pub data Phase : Type 0 where
  unregistered : Phase
  registered authenticated : String → Phase

-- The connection that the client had before, if it is another.
unfoldable pub close_old : ℕ → Option ℕ → List Effect
close_old conn none = []
close_old conn (some old) = if old == conn then [] else close old ∷ []

-- What `_on_register` writes once the client is let in.
unfoldable pub admit : Draws → ℕ → String × ℕ → String → String → MediationServer → MediationServer
admit draws conn peer client_id public_key s =
    let reg = (Registry.register draws.now client_id public_key s.networks.registry).0 in
    let reg' =
      (Registry.set_online draws.now client_id (Registry.update_endpoint client_id peer reg)).0 in
    set_registry reg' (record s {
      writers = Dict.put client_id conn s.writers;
      authenticated = Dict.put client_id false s.authenticated;
      auth = (Auth.issue draws.now draws.nonce client_id s.auth).0;
    })

-- Why a client is not let in.
unfoldable pub refusal : String → MediationServer → Option Code
refusal client_id s =
    if leb s.max_clients (length s.writers) && not (Dict.has client_id s.writers)
    then some server_full
    else if Registry.is_banned s.networks.registry client_id
    then some banned
    else none

unfoldable pub on_register :
    Draws → ℕ → String × ℕ → Payload → MediationServer → MediationServer × List Effect × Phase
unfolding close_old admit refusal
on_register draws conn peer payload s = elim (validate_register payload) [
  | err e ↦ (s, send conn (error invalid_register) ∷ [], unregistered)
  | ok (client_id, public_key) ↦ elim (refusal client_id s) [
    | some why ↦ (s, send conn (error why) ∷ [], unregistered)
    | none ↦
        let challenge = (Auth.issue draws.now draws.nonce client_id s.auth).1 in
        (
          admit draws conn peer client_id public_key s,
          close_old conn (Dict.get client_id s.writers)
              ++ send conn (auth_challenge challenge.client_id challenge.challenge) ∷ [],
          registered client_id,
        )
  ]
]

-- `deliver_relayed`
unfoldable pub frames_to : ℕ → String → List (String × List ℕ) → List Effect
frames_to conn client_id [] = []
frames_to conn client_id ((src_id, frame) ∷ rest) =
    send conn (relay_frame src_id client_id frame) ∷ frames_to conn client_id rest

unfoldable pub deliver_relayed : ℕ → String → MediationServer → MediationServer × List Effect
unfolding frames_to
deliver_relayed conn client_id s =
    let (relay', frames) = Relay.pending_frames (λ raw. raw) client_id s.relay in
    (record s { relay = relay' }, frames_to conn client_id frames)

module _ (crypto : Crypto) (bcrypt : Bcrypt) where
  unfoldable pub on_auth :
      ℕ → ℕ → String → Payload → MediationServer → MediationServer × List Effect × Phase
  on_auth now conn client_id payload s = elim (validate_auth_response payload) [
    | err e ↦ (s, send conn (error (invalid_auth e)) ∷ [], registered client_id)
    | ok (challenge, signature) ↦
        let (auth', accepted, detail) =
          Auth.verify crypto now s.networks.registry client_id (codes challenge) (codes signature)
            s.auth in
        let s' = record s { auth = auth' } in
        let s'' = record s' { authenticated = Dict.put client_id true s'.authenticated } in
        if accepted
        then (s'', send conn auth_ok ∷ announce_peer_online client_id s'', authenticated client_id)
        else (s', send conn (error (auth_failed detail)) ∷ [], registered client_id)
  ]

  unfoldable pub on_command :
      Draws
      → ℕ
      → String
      → String
      → Payload
      → MediationServer
      → MediationServer × List Effect × Phase
  unfolding deliver_relayed
  on_command draws conn client_id type payload s =
      let (s', effects) = dispatch bcrypt draws conn client_id (command_of type) payload s in
      let (s'', frames) = deliver_relayed conn client_id s' in
      (s'', effects ++ frames, authenticated client_id)

  -- One message of a connection, in the loop of `handle_client`.
  unfoldable pub receive :
      Draws
      → ℕ
      → String × ℕ
      → Phase
      → String
      → Payload
      → MediationServer
      → MediationServer × List Effect × Phase
  unfolding on_register on_auth on_command
  receive draws conn peer unregistered type payload s =
      if type == "REGISTER"
      then on_register draws conn peer payload s
      else (s, send conn (error register_required) ∷ [], unregistered)
  receive draws conn peer (registered client_id) type payload s =
      if type == "AUTH_RESPONSE"
      then on_auth draws.now conn client_id payload s
      else (s, send conn (error auth_required) ∷ [], registered client_id)
  receive draws conn peer (authenticated client_id) type payload s =
      on_command draws conn client_id type payload s

-- The `finally` of `handle_client`.
unfoldable pub finish : ℕ → Phase → MediationServer → MediationServer × List Effect
finish conn (authenticated client_id) s =
    let (s', effects) = handle_disconnect client_id s in (s', effects ++ close conn ∷ [])
finish conn _ s = (s, close conn ∷ [])

-- What can happen next: a message of a connection in its phase, the end of one, the two loops.
pub data Event : Type 0 where
  message : Draws → ℕ → String × ℕ → Phase → String → Payload → Event
  ended : ℕ → Phase → Event
  pruned : ℕ → ℕ → Event
  expired : ℕ → Event

unfoldable pub handle : Crypto → Bcrypt → Event → MediationServer → MediationServer
handle crypto bcrypt (message draws conn peer phase type payload) s =
    (receive crypto bcrypt draws conn peer phase type payload s).0
handle crypto bcrypt (ended conn phase) s = (finish conn phase s).0
handle crypto bcrypt (pruned now timeout) s = (prune now timeout s).0
handle crypto bcrypt (expired now) s = expire now s

unfoldable pub run : Crypto → Bcrypt → List Event → MediationServer → MediationServer
unfolding handle
run crypto bcrypt [] s = s
run crypto bcrypt (e ∷ es) s = run crypto bcrypt es (handle crypto bcrypt e s)
