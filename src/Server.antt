-- ===== src/Server.antt =====
-- server/main.py: MediationServer, the messages of the clients and what the server does with them. A
-- connection is a number, its writer; what a handler writes is the list of its effects. A handler runs
-- from a message to its end with no other task between, and every write succeeds. What is drawn for a
-- message (the time, a nonce, a uuid, a salt, the letters of a code) is the record `Draws`.
pub mod Handlers
pub mod Daemon
pub mod Capacity
pub mod Admission
pub mod Unauthenticated
pub mod Membership
pub mod Endpoints
pub mod Farewell
pub mod Frames
mod Tests
use local_network_ecosystem.Prelude.{
  ℕ, String, Bool, true, false, not, ◌&&◌, Option, none, some, List, [], ◌∷◌, ◌++◌, leb,
  if◌then◌else◌, length, string_eq, ◌==◌,
}
use local_network_ecosystem.Dict
use local_network_ecosystem.Dict.{Dict}
use local_network_ecosystem.Registry
use local_network_ecosystem.Registry.{ClientRecord}
use local_network_ecosystem.Auth
use local_network_ecosystem.Auth.{AuthSession, Detail}
use local_network_ecosystem.Networks.{NetworkManager, NetworkInfo, ServiceRecord}
use local_network_ecosystem.Relay
use local_network_ecosystem.Relay.{RelayForwarder, RelayMessage}
use local_network_ecosystem.Protocol.{ProtocolError, Value}

-- The codes of an ErrorMessage.
pub data Code : Type 0 where
  register_required auth_required invalid_register server_full banned : Code
  auth_failed : Detail → Code
  invalid_auth : ProtocolError → Code
  invalid_message : ProtocolError → Code
  unknown_message internal network_banned wrong_password network_not_found : Code
  not_member no_shared_network peer_unavailable no_network service_not_found : Code

pub data Message : Type 0 where
  error : Code → Message
  auth_challenge : String → List ℕ → Message
  auth_ok : Message
  heartbeat_ack : Value → Message
  network_created : String → String → String → String → String → Message
  network_joined : String → String → Message
  network_left : String → Message
  network_list : List NetworkInfo → Message
  peer_endpoints : String → List (String × ℕ) → Message
  peer_online peer_offline : String → String → Message
  service_removed : String → Message
  relay : RelayMessage → Message
  relay_frame : String → String → List ℕ → Message

-- A message to a connection, or its end.
pub data Effect : Type 0 where
  send : ℕ → Message → Effect
  close : ℕ → Effect

pub record MediationServer : Type 0 where
  pub max_clients : ℕ
  pub networks : NetworkManager
  pub auth : AuthSession
  pub relay : RelayForwarder
  pub writers : Dict String ℕ
  pub authenticated : Dict String Bool

pub record Draws : Type 0 where
  pub now : ℕ
  pub nonce : List ℕ
  pub uuid : String
  pub salt : List ℕ
  pub codes : List String
  pub fallback : String → String
  pub service_id : String

-- The registry, which the server shares with its network manager.
abbrev pub set_registry : Registry.ClientRegistry → MediationServer → MediationServer
set_registry reg s = record s { networks = record s.networks { registry = reg } }

-- To the client's connection, if it has one.
unfoldable pub send_to : MediationServer → Message → String → List Effect
send_to s msg client_id = elim (Dict.get client_id s.writers) [
  | none ↦ []
  | some conn ↦ send conn msg ∷ []
]

-- To the online members of a network but one client.
unfoldable pub send_to_others : MediationServer → Message → String → List ClientRecord → List Effect
unfolding send_to
send_to_others s msg client_id [] = []
send_to_others s msg client_id (member ∷ rest) =
    let later = send_to_others s msg client_id rest in
    if member.client_id == client_id then later else send_to s msg member.client_id ++ later

unfoldable pub send_to_all : MediationServer → Message → List ClientRecord → List Effect
unfolding send_to
send_to_all s msg [] = []
send_to_all s msg (member ∷ rest) = send_to s msg member.client_id ++ send_to_all s msg rest

unfoldable pub members_of : MediationServer → String → List ClientRecord
members_of s network_id = Registry.members_in_networks s.networks.registry (network_id ∷ [])

-- The loop of `_announce_peer_online`.
unfoldable pub announce_in : MediationServer → String → List String → List Effect
unfolding send_to_others members_of
announce_in s client_id [] = []
announce_in s client_id (network_id ∷ rest) =
    send_to_others s (peer_online network_id client_id) client_id (members_of s network_id)
    ++ announce_in s client_id rest

unfoldable pub announce_peer_online : String → MediationServer → List Effect
unfolding announce_in
announce_peer_online client_id s =
    announce_in s client_id (Registry.networks_for s.networks.registry client_id)

unfoldable pub announce_peer_offline : String → String → MediationServer → List Effect
unfolding send_to_others members_of
announce_peer_offline client_id network_id s =
    send_to_others s (peer_offline network_id client_id) client_id (members_of s network_id)

unfoldable pub broadcast_service : String → Message → MediationServer → List Effect
unfolding send_to_all members_of
broadcast_service network_id msg s = send_to_all s msg (members_of s network_id)

unfoldable pub announce_gone : String → List String → MediationServer → List Effect
unfolding announce_peer_offline
announce_gone client_id [] s = []
announce_gone client_id (network_id ∷ rest) s =
    announce_peer_offline client_id network_id s ++ announce_gone client_id rest s

unfoldable pub handle_disconnect : String → MediationServer → MediationServer × List Effect
unfolding announce_gone
handle_disconnect client_id s =
    let networks = Registry.networks_for s.networks.registry client_id in
    let s' = set_registry (Registry.unregister client_id s.networks.registry) (record s {
      writers = Dict.remove client_id s.writers;
      authenticated = Dict.remove client_id s.authenticated;
      relay = Relay.drop_client client_id s.relay;
    }) in
    (s', announce_gone client_id networks s')

-- The loop of `_prune_loop` over the clients that timed out.
unfoldable pub disconnect_all : List String → MediationServer → MediationServer × List Effect
unfolding handle_disconnect
disconnect_all [] s = (s, [])
disconnect_all (client_id ∷ rest) s =
    let (s', effects) = handle_disconnect client_id s in
    let (s'', effects') = disconnect_all rest s' in (s'', effects ++ effects')

unfoldable pub prune : ℕ → ℕ → MediationServer → MediationServer × List Effect
unfolding disconnect_all
prune now heartbeat_timeout s =
    let (reg, stale) = Registry.prune_stale now heartbeat_timeout s.networks.registry in
    disconnect_all stale (set_registry reg s)

unfoldable pub expire : ℕ → MediationServer → MediationServer
expire now s = record s { auth = (Auth.expire_stale now s.auth).0 }
