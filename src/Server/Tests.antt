-- ===== src/Server/Tests.antt =====
-- The theorems on the server at a concrete one.
use local_network_ecosystem.Prelude.{
  ℕ, ◌≡◌, refl, String, true, false, some, none, contains, [], ◌∷◌, arith, if◌then◌else◌, ◌==◌,
  string_eq,
}
use local_network_ecosystem.Dict
use local_network_ecosystem.Dict.{Dict}
use local_network_ecosystem.Registry
use local_network_ecosystem.Registry.{networks_for, ClientRecord, new_record}
use local_network_ecosystem.Registry.Views.{is_known}
use local_network_ecosystem.Auth
use local_network_ecosystem.Auth.{Crypto}
use local_network_ecosystem.Auth.Verify.{IsSigned}
use local_network_ecosystem.Auth.Hex.{unhexlify}
use local_network_ecosystem.Networks
use local_network_ecosystem.Networks.{Bcrypt, NetworkManager, NetworkRecord, is_member, get}
use local_network_ecosystem.Networks.Reach.{IsSound}
use local_network_ecosystem.Networks.Peers.{is_online}
use local_network_ecosystem.Relay
use local_network_ecosystem.Relay.{has_path}
use local_network_ecosystem.Protocol
use local_network_ecosystem.Protocol.{
  Payload, Value, text, codes, validate_register, validate_auth_response,
}
use local_network_ecosystem.Server.{MediationServer, Draws, peer_endpoints}
use local_network_ecosystem.Server.Handlers.{endpoints_for}
use local_network_ecosystem.Server.Endpoints.{IsShared, endpoints_for-IsShared}
use local_network_ecosystem.Server.Daemon.{
  unregistered, registered, authenticated, receive, finish, refusal, Event, message, ended, expired,
  handle, run,
}
use local_network_ecosystem.Server.Capacity.{IsWithin, run-IsWithin}
use local_network_ecosystem.Server.Unauthenticated.{
  HasShown, receive_unauthenticated, receive_takes_over,
}
use local_network_ecosystem.Server.Admission.{IsUntouched, IsHeld}
use local_network_ecosystem.Server.Membership.{handle-IsSound}
use local_network_ecosystem.Server.Farewell.{finish_lem}
use local_network_ecosystem.Server.Frames.{IsIdle, run-IsIdle}

-- Every signature fits.
abbrev crypto : Crypto
crypto = record {
  Key = String;
  load_pem_public_key = λ pem. some pem;
  is_rsa = λ key. true;
  verify = λ key signature challenge. true;
}

abbrev bcrypt : Bcrypt
bcrypt = record { hashpw = λ password salt. some salt; checkpw = λ password hash. some true }

abbrev start : MediationServer
start = record {
  max_clients = 2;
  networks = record {
    registry = record { clients = [] };
    networks = [];
    banned_networks = [];
    services = [];
    invite_codes = [];
    network_invite_codes = [];
  };
  auth = record { ttl = 60; max_attempts = 3; pending = [] };
  relay = Relay.empty;
  writers = [];
  authenticated = [];
}

abbrev draws_at : ℕ → Draws
draws_at now = record {
  now = now;
  nonce = 1 ∷ 2 ∷ [];
  uuid = "net";
  salt = [];
  codes = "AAAA" ∷ [];
  fallback = λ name. name;
  service_id = "svc";
}

abbrev home : String × ℕ
home = ("10.0.0.7", 4000)

abbrev register : Payload
register = ("client_id", text "alice_01") ∷ ("public_key", text "-----BEGIN PUBLIC KEY-----") ∷ []

abbrev response : Payload
response = ("challenge", text "0102") ∷ ("signature", text "ab") ∷ []

abbrev new_network : Payload
new_network = ("name", text "lan") ∷ ("password", text "secret") ∷ []

abbrev arrives : Event
arrives = message (draws_at 10) 1 home unregistered "REGISTER" register

abbrev creates : Event
creates = message (draws_at 20) 1 home (authenticated "alice_01") "CREATE_NETWORK" new_network

abbrev known : MediationServer
known = handle crypto bcrypt arrives start

start-IsSound : IsSound start.networks
unfolding contains Dict.get is_member get networks_for Registry.get
start-IsSound = record { synced = record { agree = λ n c. refl }; distinct = tt }

known-IsSound : IsSound known.networks
known-IsSound = handle-IsSound crypto bcrypt arrives start tt start-IsSound

alice_known : is_known known.networks.registry "alice_01" ≡ true
unfolding handle Registry.get Dict.get receive validate_register Registry.is_banned
    Registry.set_online Registry.update_endpoint Registry.register Dict.put
alice_known = refl

net_unused : get known.networks "net" ≡ none
unfolding handle get Dict.get receive validate_register Registry.is_banned
net_unused = refl

-- Alice, who has registered, makes a network.
handle-IsSound_example : IsSound (handle crypto bcrypt creates known).networks
handle-IsSound_example =
    handle-IsSound crypto bcrypt creates known (alice_known, net_unused) known-IsSound

run-IsWithin_example : IsWithin (run crypto bcrypt (arrives ∷ creates ∷ expired 400 ∷ []) start)
run-IsWithin_example =
    run-IsWithin crypto bcrypt (arrives ∷ creates ∷ expired 400 ∷ []) start (omega arith)

start-IsIdle : IsIdle start.relay
unfolding Dict.get
start-IsIdle = record { queues = λ k. refl; bytes = refl }

run-IsIdle_example :
    IsIdle
      (run crypto bcrypt (arrives ∷ creates ∷ ended 1 (authenticated "alice_01") ∷ []) start).relay
run-IsIdle_example =
    run-IsIdle crypto bcrypt (arrives ∷ creates ∷ ended 1 (authenticated "alice_01") ∷ []) start
      start-IsIdle

-- The connection 7 ends, although Alice's last is 1.
finish_example :
    let s' = (finish 7 (authenticated "alice_01") known).0 in
    (Dict.get "bob_0001" s'.writers ≡ (
      if ◌==◌ {A = String} "alice_01" "bob_0001" then none else Dict.get "bob_0001" known.writers))
    × (is_online (Registry.get s'.networks.registry "alice_01") ≡ false)
    × (has_path s'.relay "alice_01" "bob_0001" ≡ false)
    × (has_path s'.relay "bob_0001" "alice_01" ≡ false)
    × (networks_for s'.networks.registry "bob_0001"
        ≡ networks_for known.networks.registry "bob_0001")
    × (s'.networks.networks ≡ known.networks.networks)
    × (◌==◌ {A = String} "alice_01" "bob_0001" ≡ false
        → Registry.get s'.networks.registry "bob_0001"
          ≡ Registry.get known.networks.registry "bob_0001")
finish_example = finish_lem 7 "alice_01" "bob_0001" known

receive_unauthenticated_example :
    let (s', _, phase') =
      receive crypto bcrypt
        (draws_at 12)
        1
        home
        (registered "alice_01")
        "AUTH_RESPONSE"
        response
        known in
    IsUntouched known s'
    × ((k : String)
        → phase' ≡ authenticated k
        → HasShown crypto 12 (registered "alice_01") response known k)
receive_unauthenticated_example =
    receive_unauthenticated crypto bcrypt (draws_at 12) 1 home (registered "alice_01")
      "AUTH_RESPONSE" response known refl

reads_register : validate_register register ≡ Protocol.ok ("alice_01", "-----BEGIN PUBLIC KEY-----")
unfolding validate_register Dict.get
reads_register = refl

has_room : refusal "alice_01" known ≡ none
unfolding refusal handle receive validate_register Dict.get Registry.is_banned Dict.put
    Registry.set_online Registry.update_endpoint Registry.register
has_room = refl

reads_response : validate_auth_response response ≡ Protocol.ok ("0102", "ab")
unfolding validate_auth_response Dict.get
reads_response = refl

reads_signature : unhexlify (codes "ab") ≡ some (171 ∷ [])
unfolding unhexlify codes
reads_signature = refl

key_fits : IsSigned crypto "-----BEGIN PUBLIC KEY-----" (1 ∷ 2 ∷ []) (171 ∷ [])
key_fits = record { key = "-----BEGIN PUBLIC KEY-----"; loads = refl; rsa = refl; verified = refl }

-- Connection 2 takes Alice over from connection 1.
receive_takes_over_example :
    let s' =
      (receive crypto bcrypt (draws_at 30) 2 home unregistered "REGISTER" register known).0 in
    (Dict.get "alice_01" s'.writers ≡ some 2)
    × IsHeld "alice_01" "-----BEGIN PUBLIC KEY-----" home s'.networks.registry
    × ((receive crypto bcrypt
          (draws_at 31)
          2
          home
          (registered "alice_01")
          "AUTH_RESPONSE"
          response
          s').2
        ≡ authenticated "alice_01")
unfolding handle receive validate_register Dict.get Registry.is_banned Auth.issue
receive_takes_over_example =
    receive_takes_over crypto bcrypt (draws_at 30) (draws_at 31) 2 home register response "alice_01"
      "-----BEGIN PUBLIC KEY-----" "0102" "ab" (171 ∷ []) known reads_register has_room
      reads_response reads_signature key_fits (omega arith)

abbrev member : String → ClientRecord
member k = record (new_record 5 k "pem") {
  online = true;
  public_endpoint = some (k, 4500);
  networks = "lan" ∷ [];
}

abbrev lan : NetworkRecord
lan = record {
  network_id = "lan";
  name = "LAN";
  password_hash = [];
  owner_id = "alice";
  topology = "mesh";
  members = "bob" ∷ "alice" ∷ [];
  hub_id = none;
  gateway_id = none;
  created_at = 5;
}

abbrev shared : NetworkManager
shared = record start.networks {
  registry = record { clients = ("alice", member "alice") ∷ ("bob", member "bob") ∷ [] };
  networks = ("lan", lan) ∷ [];
}

bob_is_told : endpoints_for shared "alice" "bob" ≡ peer_endpoints "bob" (("bob", 4500) ∷ [])
unfolding endpoints_for networks_for Dict.get is_member contains Networks.shared_endpoints_for
bob_is_told = refl

endpoints_for-IsShared_example : IsShared shared "alice" "bob" (("bob", 4500) ∷ [])
endpoints_for-IsShared_example =
    endpoints_for-IsShared shared "alice" "bob" (("bob", 4500) ∷ []) bob_is_told
