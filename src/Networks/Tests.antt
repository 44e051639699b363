-- ===== src/Networks/Tests.antt =====
-- The theorems on networks at a concrete server.
use local_network_ecosystem.Prelude.{
  ℕ, ◌≡◌, refl, String, true, false, some, none, List, [], ◌∷◌, arith, contains, set_add,
  if◌then◌else◌, ◌==◌, string_eq, eq_iff,
}
use local_network_ecosystem.Dict
use local_network_ecosystem.Dict.{Dict, IsDistinct}
use local_network_ecosystem.Registry
use local_network_ecosystem.Registry.{ClientRecord, ClientRegistry, new_record}
use local_network_ecosystem.Registry.Named.{IsNamed}
use local_network_ecosystem.Networks
use local_network_ecosystem.Networks.{
  Bcrypt, NetworkRecord, NetworkManager, ServiceRecord, Result, ok, get, members, create, join,
  delete, purge_client, get_peers, shared_endpoints_for, reachable_at, password_fits, is_banned,
}
use local_network_ecosystem.Networks.Services.{service}
use local_network_ecosystem.Networks.Invites.{generate_invite_code}
use local_network_ecosystem.Networks.Reach.{Reach}
use local_network_ecosystem.Networks.Codes.{IsCoded, CanDraw, generate_invite_code_lem}
use local_network_ecosystem.Networks.Purge.{purge_client_dangles}

-- Only "secret" is hashed, and only it fits.
abbrev bcrypt : Bcrypt
bcrypt = record {
  hashpw = λ password salt. if password == "secret" then some salt else none;
  checkpw = λ password hash. some (password == "secret");
}

fits_its_hash :
    (password : String) (salt hash : List ℕ)
    → bcrypt.hashpw password salt ≡ some hash
    → bcrypt.checkpw password hash ≡ some true
fits_its_hash password salt hash e = ground arith

abbrev start : NetworkManager
start = record {
  registry = record { clients = [] };
  networks = [];
  banned_networks = [];
  services = [];
  invite_codes = [];
  network_invite_codes = [];
}

abbrev client : String → ClientRecord
client k = record (new_record 5 k "pem") {
  online = true;
  public_endpoint = some ("203.0.113.7", 4500);
  networks = "lan" ∷ [];
}

-- A hub-and-spoke network of its hub Alice and of Bob.
abbrev lan : NetworkRecord
lan = record {
  network_id = "lan";
  name = "LAN";
  password_hash = 1 ∷ [];
  owner_id = "alice";
  topology = "hub_and_spoke";
  members = "alice" ∷ "bob" ∷ [];
  hub_id = some "alice";
  gateway_id = none;
  created_at = 5;
}

abbrev printer : ServiceRecord
printer = service 6 "s1" "lan" "bob" "printer" "tcp" "localhost" 631

abbrev manager : NetworkManager
manager = record {
  registry = record { clients = ("alice", client "alice") ∷ ("bob", client "bob") ∷ [] };
  networks = ("lan", lan) ∷ [];
  banned_networks = [];
  services = ("lan", ("s1", printer) ∷ []) ∷ [];
  invite_codes = [];
  network_invite_codes = [];
}

lan_there : get manager "lan" ≡ some lan
unfolding get Dict.get
lan_there = refl

lan_open : is_banned manager "lan" ≡ false
unfolding is_banned contains
lan_open = refl

alice_in : contains "alice" lan.members ≡ true
unfolding contains
alice_in = refl

one_network : IsDistinct manager.networks
unfolding Dict.get
one_network = (refl, tt)

manager-IsNamed : IsNamed manager.registry
unfolding Registry.get Dict.get
manager-IsNamed = record { distinct = (refl, (refl, tt)); named = λ k r e. grind (arith, eq_iff) }

manager-IsCoded : IsCoded manager
unfolding Dict.get
manager-IsCoded = record {
  leads = λ n code e. absurd (ground arith);
  back = λ n code e. absurd (ground arith);
  filled = λ n code e. absurd (ground arith);
}

abbrev draws : List String
draws = "LAN-1A2B" ∷ []

abbrev fallback : String → String
fallback name = "lan-ffff"

can_draw : CanDraw draws fallback manager
unfolding Dict.get
can_draw = record {
  draws_filled = (refl, tt);
  fallback_filled = λ name. refl;
  fallback_free = λ name. refl;
}

abbrev coded : NetworkManager
coded = record manager {
  invite_codes = ("LAN-1A2B", "lan") ∷ [];
  network_invite_codes = ("lan", "LAN-1A2B") ∷ [];
}

code_drawn : generate_invite_code draws fallback "lan" manager ≡ ok (coded, "LAN-1A2B")
unfolding generate_invite_code get Dict.get Dict.put Dict.has
code_drawn = refl

-- Bob registers and makes a network.
abbrev bob_registered : NetworkManager
bob_registered = record start { registry = (Registry.register 5 "bob" "pem" start.registry).0 }

abbrev den : NetworkRecord
den = record {
  network_id = "den";
  name = "Den";
  password_hash = 9 ∷ [];
  owner_id = "bob";
  topology = "mesh";
  members = "bob" ∷ [];
  hub_id = none;
  gateway_id = none;
  created_at = 7;
}

abbrev with_den : NetworkManager
with_den = record bob_registered {
  registry = record {
    clients = ("bob", record (new_record 5 "bob" "pem") { networks = "den" ∷ [] }) ∷ [];
  };
  networks = ("den", den) ∷ [];
}

generate_invite_code_example :
    IsCoded coded
    × (Dict.get "LAN-1A2B" coded.invite_codes ≡ some "lan")
    × ((draws' : List String) (fallback' : String → String)
        → generate_invite_code draws' fallback' "lan" coded ≡ ok (coded, "LAN-1A2B"))
generate_invite_code_example =
    generate_invite_code_lem draws fallback "lan" manager can_draw manager-IsCoded code_drawn

coded-IsCoded : IsCoded coded
coded-IsCoded =
    (generate_invite_code_lem draws fallback "lan" manager can_draw manager-IsCoded code_drawn).0

lan_coded : Dict.get "lan" coded.network_invite_codes ≡ some "LAN-1A2B"
unfolding Dict.get
lan_coded = refl

alice_deletes : (delete "lan" "alice" coded).1 ≡ true
unfolding delete get Dict.get
alice_deletes = refl

secret_fits : password_fits bcrypt "secret" lan ≡ true
unfolding password_fits
secret_fits = refl

-- Alice is alone in the network.
abbrev alone : NetworkManager
alone = record coded { networks = ("lan", record lan { members = "alice" ∷ [] }) ∷ [] }

alone_there : get alone "lan" ≡ some (record lan { members = "alice" ∷ [] })
unfolding get Dict.get
alone_there = refl

alone-IsDistinct : IsDistinct alone.networks
unfolding Dict.get
alone-IsDistinct = (refl, tt)

alone_coded : Dict.get "LAN-1A2B" alone.invite_codes ≡ some "lan"
unfolding Dict.get
alone_coded = refl

purge_client_dangles_example :
    let m' = (purge_client "alice" alone).0 in
    (get m' "lan" ≡ none) × (Dict.get "LAN-1A2B" m'.invite_codes ≡ some "lan")
purge_client_dangles_example =
    purge_client_dangles "alice" "lan" "LAN-1A2B" alone (record lan { members = "alice" ∷ [] })
      alone-IsDistinct alone_there refl alone_coded

one_list : IsDistinct manager.services
unfolding Dict.get
one_list = (refl, tt)

-- Bob makes a network of his own, which Alice then joins.
abbrev home : NetworkRecord
home = record {
  network_id = "home";
  name = "Home";
  password_hash = 9 ∷ [];
  owner_id = "bob";
  topology = "mesh";
  members = "bob" ∷ [];
  hub_id = none;
  gateway_id = none;
  created_at = 7;
}

abbrev with_home : NetworkManager
with_home = record manager {
  registry = record {
    clients =
        ("alice", client "alice")
        ∷ ("bob", record (client "bob") { networks = "lan" ∷ "home" ∷ [] })
        ∷ [];
  };
  networks = ("lan", lan) ∷ ("home", home) ∷ [];
}

home_created :
    create bcrypt 7 "home" (9 ∷ []) "Home" "secret" "bob" "mesh" none manager ≡ ok (with_home, home)
unfolding create Registry.add_network contains set_add Dict.get Dict.put
home_created = refl

home_open : is_banned manager "home" ≡ false
unfolding is_banned contains
home_open = refl
