-- ===== src/Relay/Tests.antt =====
-- The theorems on the relay at concrete frames.
use local_network_ecosystem.Prelude.{
  ◌≡◌, refl, String, true, none, List, [], ◌∷◌, ◌++◌, arith, contains, set_add, string_eq, pair_eq,
  eq_iff,
}
use local_network_ecosystem.Dict
use local_network_ecosystem.Dict.{Dict}
use local_network_ecosystem.Registry
use local_network_ecosystem.Registry.{ClientRecord, ClientRegistry, new_record}
use local_network_ecosystem.Networks
use local_network_ecosystem.Networks.{NetworkRecord, NetworkManager, is_member}
use local_network_ecosystem.Relay.{
  RelayForwarder, empty, has_path, register_relay_path, relay_frame, pending_frames, online_record,
}
use local_network_ecosystem.Relay.Invariant
use local_network_ecosystem.Relay.Invariant.{
  Call, register, frame, drain, IsValid, run, run-IsValid,
}
use local_network_ecosystem.Relay.Delivery.{waiting, delivered, accepted, run-waiting}
use local_network_ecosystem.Relay.Grants.{IsFiled}

empty-IsValid : IsValid empty
unfolding Dict.get has_path contains
empty-IsValid = record {
  bounded = λ c q e. absurd (ground arith);
  both_ways = λ a b. refl;
  has_queue = λ a b e. absurd (ground arith);
  routed = λ c q e. absurd (ground arith);
}

-- Two frames to Bob, of which he takes the first before the second comes.
abbrev calls : List Call
calls =
    register "alice" "bob"
    ∷ frame "alice" "bob" (1 ∷ 2 ∷ [])
    ∷ drain "bob"
    ∷ frame "alice" "bob" (3 ∷ [])
    ∷ []

abbrev after : RelayForwarder
after = run calls empty

one_waits : waiting after "bob" ≡ ("alice", 3 ∷ []) ∷ []
unfolding run Invariant.apply register_relay_path relay_frame pending_frames Dict.get Dict.put
    contains set_add
one_waits = refl

run-IsValid_example : IsValid (run calls empty)
run-IsValid_example = run-IsValid calls empty empty-IsValid

run-waiting_example :
    waiting empty "bob" ++ accepted "bob" calls empty
    ≡ delivered "bob" calls empty ++ waiting (run calls empty) "bob"
run-waiting_example = run-waiting "bob" calls empty (tt, (tt, (tt, (tt, tt))))

abbrev online : String → ClientRecord
online k = record (new_record 5 k "pem") { online = true; networks = "lan" ∷ [] }

abbrev lan : NetworkRecord
lan = record {
  network_id = "lan";
  name = "LAN";
  password_hash = [];
  owner_id = "alice";
  topology = "mesh";
  members = "alice" ∷ "bob" ∷ [];
  hub_id = none;
  gateway_id = none;
  created_at = 0;
}

abbrev manager : NetworkManager
manager = record {
  registry = record { clients = ("alice", online "alice") ∷ ("bob", online "bob") ∷ [] };
  networks = ("lan", lan) ∷ [];
  banned_networks = [];
  services = [];
  invite_codes = [];
  network_invite_codes = [];
}

manager-IsFiled : IsFiled manager
unfolding Dict.get Networks.get
manager-IsFiled = record { distinct = (refl, tt); filed = λ n r e. grind (arith, eq_iff) }

is_lan_member : (is_member manager "lan" "alice" ≡ true) × (is_member manager "lan" "bob" ≡ true)
unfolding is_member Networks.get Dict.get contains
is_lan_member = (refl, refl)

are_online :
    (online_record (Registry.get manager.registry "alice") ≡ true)
    × (online_record (Registry.get manager.registry "bob") ≡ true)
unfolding Registry.get Dict.get
are_online = (refl, refl)
