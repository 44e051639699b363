-- ===== src/Registry.antt =====
-- server/registry.py: what the mediation server knows of its clients. `time.time()` is the argument
-- `now`, in whole ticks; a Python set is a list without repetition.
pub mod Presence
pub mod Named
pub mod Views
mod Tests
use local_network_ecosystem.Prelude.{
  ℕ, ◌+◌, ◌-◌, String, Bool, true, false, not, ◌&&◌, ◌||◌, Option, none, some, List, [], ◌∷◌, map,
  ltb, if◌then◌else◌, length, filter, any, contains, set_add, discard, string_eq,
}
use local_network_ecosystem.Dict
use local_network_ecosystem.Dict.{Dict}

pub record ClientRecord : Type 0 where
  pub client_id : String
  pub public_key_pem : String
  pub public_endpoint : Option (String × ℕ)
  pub last_heartbeat : ℕ
  pub online : Bool
  pub networks : List String
  pub joined_at : ℕ
  pub banned : Bool
  pub client_ip : Option String

pub record ClientRegistry : Type 0 where
  pub clients : Dict String ClientRecord

abbrev pub new_record : ℕ → String → String → ClientRecord
new_record now client_id public_key_pem = record {
  client_id = client_id;
  public_key_pem = public_key_pem;
  public_endpoint = none;
  last_heartbeat = now;
  online = false;
  networks = [];
  joined_at = now;
  banned = false;
  client_ip = none;
}

abbrev pub empty : ClientRegistry
empty = record { clients = [] }

module _ (reg : ClientRegistry) where
  unfoldable pub get : String → Option ClientRecord
  get client_id = Dict.get client_id reg.clients

  abbrev pub store : String → ClientRecord → ClientRegistry
  store client_id r = record reg { clients = Dict.put client_id r reg.clients }

-- A write to the record of a client, if there is one.
unfoldable pub modify : (ClientRecord → ClientRecord) → String → ClientRegistry → ClientRegistry
unfolding get
modify f client_id reg = elim (get reg client_id) [
  | none ↦ reg
  | some r ↦ store reg client_id (f r)
]

unfoldable pub register : ℕ → String → String → ClientRegistry → ClientRegistry × ClientRecord
unfolding get
register now client_id public_key_pem reg = elim (get reg client_id) [
  | none ↦ let r = new_record now client_id public_key_pem in (store reg client_id r, r)
  | some old ↦ let r = record old { public_key_pem = public_key_pem } in (store reg client_id r, r)
]

unfoldable pub unregister : String → ClientRegistry → ClientRegistry
unfolding modify
unregister = modify (λ r. record r { online = false; public_endpoint = none })

unfoldable pub forget : String → ClientRegistry → ClientRegistry
forget client_id reg = record reg { clients = Dict.remove client_id reg.clients }

abbrev pub values {ℓ} : {V : Type ℓ} → Dict String V → List V
values = map (λ e. e.1)

unfoldable pub get_online : ClientRegistry → List ClientRecord
get_online reg = filter (λ r. r.online) (values reg.clients)

unfoldable pub get_all : ClientRegistry → List ClientRecord
get_all reg = values reg.clients

unfoldable pub count : ClientRegistry → ℕ
count reg = length reg.clients

-- `sum(1 for r in ... if r.online)`
unfoldable pub count_online : List ClientRecord → ℕ
count_online [] = 0
count_online (r ∷ rs) = let n = count_online rs in if r.online then 1 + n else n

unfoldable pub online_count : ClientRegistry → ℕ
unfolding count_online
online_count reg = count_online (values reg.clients)

unfoldable pub has : ClientRegistry → String → Bool
has reg client_id = Dict.has client_id reg.clients

unfoldable pub is_banned : ClientRegistry → String → Bool
unfolding get
is_banned reg client_id = elim (get reg client_id) [ none ↦ false | some r ↦ r.banned ]

unfoldable pub set_online : ℕ → String → ClientRegistry → ClientRegistry × Bool
unfolding get
set_online now client_id reg = elim (get reg client_id) [
  | none ↦ (reg, false)
  | some r ↦
      if r.banned
      then (reg, false)
      else (store reg client_id (record r { online = true; last_heartbeat = now }), true)
]

unfoldable pub update_endpoint : String → String × ℕ → ClientRegistry → ClientRegistry
unfolding modify
update_endpoint client_id addr =
    modify (λ r. record r { public_endpoint = some addr; client_ip = some addr.0 }) client_id

unfoldable pub heartbeat : ℕ → String → ClientRegistry → ClientRegistry × Bool
unfolding get
heartbeat now client_id reg = elim (get reg client_id) [
  | none ↦ (reg, false)
  | some r ↦ (store reg client_id (record r { last_heartbeat = now; online = true }), true)
]

abbrev pub is_stale : ℕ → ClientRecord → Bool
is_stale cutoff r = r.online && ltb r.last_heartbeat cutoff

-- The loop of `prune_stale`.
unfoldable pub prune_items : ℕ → Dict String ClientRecord → Dict String ClientRecord × List String
prune_items cutoff [] = ([], [])
prune_items cutoff ((client_id, r) ∷ d) =
    let (d', stale) = prune_items cutoff d in
    if is_stale cutoff r
    then ((client_id, record r { online = false }) ∷ d', client_id ∷ stale)
    else ((client_id, r) ∷ d', stale)

-- No heartbeat is below 0, so a cutoff that stops there drops none that the source keeps.
unfoldable pub prune_stale : ℕ → ℕ → ClientRegistry → ClientRegistry × List String
unfolding prune_items
prune_stale now timeout reg =
    let (d, stale) = prune_items (now - timeout) reg.clients in (record reg { clients = d }, stale)

unfoldable pub add_network : String → String → ClientRegistry → ClientRegistry
unfolding modify
add_network client_id network_id =
    modify (λ r. record r { networks = set_add network_id r.networks }) client_id

unfoldable pub remove_network : String → String → ClientRegistry → ClientRegistry
unfolding modify
remove_network client_id network_id =
    modify (λ r. record r { networks = discard network_id r.networks }) client_id

unfoldable pub networks_for : ClientRegistry → String → List String
unfolding get
networks_for reg client_id = elim (get reg client_id) [ none ↦ [] | some r ↦ r.networks ]

unfoldable pub members_in_networks : ClientRegistry → List String → List ClientRecord
members_in_networks reg wanted =
    filter (λ r. r.online && any (λ n. contains n wanted) r.networks) (values reg.clients)
