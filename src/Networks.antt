-- ===== src/Networks.antt =====
-- server/network_manager.py: virtual networks, their members, and what is shared about them. The
-- manager writes to the server's client registry, which is a field of its state here. `bcrypt` is a
-- parameter; a fresh `uuid4` and the salt are arguments. Services and invite codes are in the
-- modules below.
pub mod Services
pub mod Invites
pub mod Cases
pub mod Sync
pub mod Reach
pub mod Access
pub mod Peers
pub mod Codes
pub mod Purge
pub mod Providers
mod Tests
use local_network_ecosystem.Prelude.{
  ℕ, String, Bool, true, false, not, ◌&&◌, ◌||◌, Option, none, some, List, [], ◌∷◌, if◌then◌else◌,
  filter, length, contains, set_add, discard, string_eq, ◌==◌,
}
use local_network_ecosystem.Dict
use local_network_ecosystem.Dict.{Dict}
use local_network_ecosystem.Registry
use local_network_ecosystem.Registry.{ClientRecord, ClientRegistry, values}

-- What the code uses of `bcrypt`; `none` stands for a ValueError.
pub record Bcrypt : Type 0 where
  pub hashpw : String → List ℕ → Option (List ℕ)
  pub checkpw : String → List ℕ → Option Bool

abbrev pub topology_mesh : String
topology_mesh = "mesh"

abbrev pub topology_hub_and_spoke : String
topology_hub_and_spoke = "hub_and_spoke"

abbrev pub topology_gateway : String
topology_gateway = "gateway"

abbrev pub supported_topologies : List String
supported_topologies = topology_mesh ∷ topology_hub_and_spoke ∷ topology_gateway ∷ []

pub record NetworkRecord : Type 0 where
  pub network_id : String
  pub name : String
  pub password_hash : List ℕ
  pub owner_id : String
  pub topology : String
  pub members : List String
  pub hub_id : Option String
  pub gateway_id : Option String
  pub created_at : ℕ

pub record ServiceRecord : Type 0 where
  pub service_id : String
  pub network_id : String
  pub provider_id : String
  pub name : String
  pub protocol : String
  pub local_host : String
  pub local_port : ℕ
  pub created_at : ℕ

-- NetworkRecord.to_dict
pub record NetworkInfo : Type 0 where
  pub network_id : String
  pub name : String
  pub owner_id : String
  pub topology : String
  pub member_count : ℕ
  pub created_at : ℕ

unfoldable pub network_to_dict : Option ℕ → NetworkRecord → NetworkInfo
network_to_dict member_count r = record {
  network_id = r.network_id;
  name = r.name;
  owner_id = r.owner_id;
  topology = r.topology;
  member_count = elim member_count [ none ↦ length r.members | some n ↦ n ];
  created_at = r.created_at;
}

pub record NetworkManager : Type 0 where
  pub registry : ClientRegistry
  pub networks : Dict String NetworkRecord
  pub banned_networks : List String
  pub services : Dict String (Dict String ServiceRecord)
  pub invite_codes : Dict String String
  pub network_invite_codes : Dict String String

-- A method that may raise ValueError.
pub data Result {ℓ} (A : Type ℓ) : Type ℓ where
  ok : A → Result A
  value_error : Result A

infixl 5 ◌>>=◌
abbrev pub ◌>>=◌ {ℓ κ} : {A : Type ℓ} {B : Type κ} → Result A → (A → Result B) → Result B
ok a >>= f = f a
value_error >>= f = value_error

unfoldable pub get : NetworkManager → String → Option NetworkRecord
get m network_id = Dict.get network_id m.networks

unfoldable pub list_all : NetworkManager → List NetworkRecord
list_all m = values m.networks

unfoldable pub count : NetworkManager → ℕ
count m = length m.networks

unfoldable pub is_banned : NetworkManager → String → Bool
is_banned m network_id = contains network_id m.banned_networks

-- `record.members.add(client_id)` and `self._registry.add_network(client_id, network_id)`
unfoldable pub admit : String → NetworkRecord → String → NetworkManager → NetworkManager
admit network_id r client_id m = record m {
  registry = Registry.add_network client_id network_id m.registry;
  networks = Dict.put network_id (record r { members = set_add client_id r.members }) m.networks;
}

unfoldable pub forget_role : String → Option String → Option String
forget_role client_id none = none
forget_role client_id (some role) = if role == client_id then none else some role

-- What a network is when its member has gone.
unfoldable pub without_member : String → NetworkRecord → NetworkRecord
unfolding forget_role
without_member client_id r = record r {
  members = discard client_id r.members;
  hub_id = forget_role client_id r.hub_id;
  gateway_id = forget_role client_id r.gateway_id;
}

unfoldable pub leave : String → String → NetworkManager → NetworkManager × Bool
unfolding get without_member
leave network_id client_id m = elim (get m network_id) [
  | none ↦ (m, false)
  | some r ↦
      if contains client_id r.members
      then (
        record m {
          registry = Registry.remove_network client_id network_id m.registry;
          networks = Dict.put network_id (without_member client_id r) m.networks;
        },
        true,
      )
      else (m, false)
]

unfoldable pub is_member : NetworkManager → String → String → Bool
unfolding get
is_member m network_id client_id = elim (get m network_id) [
  | none ↦ false
  | some r ↦ contains client_id r.members
]

unfoldable pub members : NetworkManager → String → List String
unfolding get
members m network_id = elim (get m network_id) [ none ↦ [] | some r ↦ r.members ]

-- The loop of `get_peers`.
unfoldable pub online_peers : ClientRegistry → String → List String → List ClientRecord
online_peers reg client_id [] = []
online_peers reg client_id (member_id ∷ rest) =
    let peers = online_peers reg client_id rest in
    if member_id == client_id then peers else elim (Registry.get reg member_id) [
      | none ↦ peers
      | some r ↦ if r.online then r ∷ peers else peers
    ]

unfoldable pub get_peers : NetworkManager → String → String → List ClientRecord
unfolding get online_peers
get_peers m network_id client_id = elim (get m network_id) [
  | none ↦ []
  | some r ↦ online_peers m.registry client_id r.members
]

unfoldable pub list_for_client : NetworkManager → String → List NetworkRecord
list_for_client m client_id = filter (λ r. contains client_id r.members) (values m.networks)

-- The loop of `delete` over the members.
unfoldable pub remove_from_all : String → List String → ClientRegistry → ClientRegistry
remove_from_all network_id [] reg = reg
remove_from_all network_id (member_id ∷ rest) reg =
    remove_from_all network_id rest (Registry.remove_network member_id network_id reg)

-- `self._invite_codes.pop(code, None)` where `code` is neither None nor empty.
unfoldable pub drop_code : Option String → Dict String String → Dict String String
drop_code none codes = codes
drop_code (some code) codes = if code == "" then codes else Dict.remove code codes

-- What `delete` writes once the requester is the owner.
unfoldable pub erase : String → NetworkRecord → NetworkManager → NetworkManager
unfolding remove_from_all drop_code
erase network_id r m = record m {
  registry = remove_from_all network_id r.members m.registry;
  networks = Dict.remove network_id m.networks;
  invite_codes = drop_code (Dict.get network_id m.network_invite_codes) m.invite_codes;
  network_invite_codes = Dict.remove network_id m.network_invite_codes;
}

unfoldable pub delete : String → String → NetworkManager → NetworkManager × Bool
unfolding get erase
delete network_id requester_id m = elim (get m network_id) [
  | none ↦ (m, false)
  | some r ↦ if r.owner_id == requester_id then (erase network_id r m, true) else (m, false)
]

-- The body of the loop of `purge_client`: an emptied network is deleted.
unfoldable pub purge_network : String → String → NetworkRecord → NetworkManager → NetworkManager
unfolding without_member
purge_network client_id network_id r m =
    if contains client_id r.members
    then record m {
      registry = Registry.remove_network client_id network_id m.registry;
      networks = elim (discard client_id r.members) [
        | [] ↦ Dict.remove network_id m.networks
        | _ ∷ _ ↦ Dict.put network_id (without_member client_id r) m.networks
      ];
    }
    else m

-- The loop, over a copy of the networks.
unfoldable pub purge_networks :
    String → Dict String NetworkRecord → NetworkManager → NetworkManager × List String
unfolding purge_network
purge_networks client_id [] m = (m, [])
purge_networks client_id ((network_id, r) ∷ rest) m =
    let (m', removed) = purge_networks client_id rest (purge_network client_id network_id r m) in
    (m', if contains client_id r.members then network_id ∷ removed else removed)

-- The services of one network that some other client provides.
unfoldable pub drop_provider : String → Dict String ServiceRecord → Dict String ServiceRecord
drop_provider client_id = filter (λ e. not (e.1.provider_id == client_id))

unfoldable pub purge_client : String → NetworkManager → NetworkManager × List String
unfolding purge_networks drop_provider
purge_client client_id m =
    let (m', removed) = purge_networks client_id m.networks m in
    (record m' { services = Dict.map_values (drop_provider client_id) m'.services }, removed)

-- `not target.online or not target.public_endpoint`, else the endpoint alone in a list.
unfoldable pub reachable_at : Option ClientRecord → Option (List (String × ℕ))
reachable_at none = none
reachable_at (some r) = elim r.public_endpoint [
  | none ↦ none
  | some endpoint ↦ if r.online then some (endpoint ∷ []) else none
]

unfoldable pub is_role : Option String → String → Bool
is_role none client_id = false
is_role (some role) client_id = role == client_id

unfoldable pub shared_endpoints_for :
    NetworkManager → String → String → String → Option (List (String × ℕ))
unfolding get reachable_at is_role
shared_endpoints_for m network_id requester_id target_id = elim (get m network_id) [
  | none ↦ none
  | some r ↦
      if requester_id == target_id
      then none
      else if not (contains requester_id r.members) || not (contains target_id r.members)
      then none
      else elim (reachable_at (Registry.get m.registry target_id)) [
        | none ↦ none
        | some endpoints ↦
            if r.topology == topology_hub_and_spoke && not (is_role r.hub_id target_id)
            then none
            else some endpoints
      ]
]

-- `network_id or str(uuid.uuid4())`
unfoldable pub chosen_id : String → Option String → String
chosen_id uuid none = uuid
chosen_id uuid (some id) = if id == "" then uuid else id

module _ (bcrypt : Bcrypt) where
  unfoldable pub create :
      ℕ
      → String
      → List ℕ
      → String
      → String
      → String
      → String
      → Option String
      → NetworkManager
      → Result (NetworkManager × NetworkRecord)
  unfolding chosen_id
  create now uuid salt name password owner_id topology network_id m =
      if not (contains topology supported_topologies)
      then value_error
      else elim (bcrypt.hashpw password salt) [
        | none ↦ value_error
        | some hash ↦
            let id = chosen_id uuid network_id in
            let r : NetworkRecord = record {
              network_id = id;
              name = name;
              password_hash = hash;
              owner_id = owner_id;
              topology = topology;
              members = set_add owner_id [];
              hub_id = if topology == topology_hub_and_spoke then some owner_id else none;
              gateway_id = if topology == topology_gateway then some owner_id else none;
              created_at = now;
            } in
            ok (
              record m {
                registry = Registry.add_network owner_id id m.registry;
                networks = Dict.put id r m.networks;
              },
              r,
            )
      ]

  -- `bcrypt.checkpw`, with a ValueError as False.
  unfoldable pub password_fits : String → NetworkRecord → Bool
  password_fits password r = elim (bcrypt.checkpw password r.password_hash) [
    | none ↦ false
    | some b ↦ b
  ]

  unfoldable pub join : String → String → String → NetworkManager → NetworkManager × Bool
  unfolding get admit is_banned password_fits
  join network_id client_id password m = elim (get m network_id) [
    | none ↦ (m, false)
    | some r ↦
        if is_banned m network_id
        then (m, false)
        else if password_fits password r
        then (admit network_id r client_id m, true)
        else (m, false)
  ]
