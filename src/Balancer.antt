-- ===== src/Balancer.antt =====
-- proxy/load_balancer.py: the choice of an upstream server. A weight is a natural number; the MD5 of
-- an address, read as a number, is the parameter `hash`.
pub mod RoundRobin
pub mod Choice
mod Tests
use local_network_ecosystem.Prelude.{
  ℕ, ◌+◌, ◌-◌, ◌*◌, ◌%◌, String, Bool, true, false, not, ◌&&◌, Option, none, some, List, [], ◌∷◌,
  ◌++◌, ltb, if◌then◌else◌, length, get_elem?, replicate, filter, max, string_eq, addr_eq, nat_eq,
  ◌==◌,
}
use local_network_ecosystem.Dict
use local_network_ecosystem.Dict.{Dict}

pub record UpstreamServer : Type 0 where
  pub host : String
  pub port : ℕ
  pub weight : ℕ
  pub max_conns : ℕ
  pub backup : Bool
  pub down : Bool

-- What `select` ends with.
pub data Selection : Type 0 where
  chosen : UpstreamServer → Selection
  nothing : Selection
  index_error : Selection

abbrev pub is_up : UpstreamServer → Bool
is_up s = not s.down

abbrev pub or_else : List UpstreamServer → List UpstreamServer → List UpstreamServer
or_else [] ys = ys
or_else (x ∷ xs) ys = x ∷ xs

-- The servers that are up and no backup, or else the backups that are up.
unfoldable pub available : List UpstreamServer → List UpstreamServer
available servers =
    or_else (filter (λ s. not s.down && not s.backup) servers)
      (filter (λ s. s.backup && not s.down) servers)

-- Each server as often as its weight.
unfoldable pub weighted : List UpstreamServer → List UpstreamServer
weighted [] = []
weighted (s ∷ rest) = replicate s.weight s ++ weighted rest

-- RoundRobinBalancer.select: the next index, and the selection. An index out of range raises and
-- stays as it is.
unfoldable pub pick : List UpstreamServer → ℕ → ℕ × Selection
pick ws index = elim (get_elem? ws index) [
  | none ↦ (index, index_error)
  | some s ↦ ((index + 1) % length ws, chosen s)
]

unfoldable pub round_robin : List UpstreamServer → ℕ → ℕ × Selection
unfolding available weighted pick
round_robin servers index = elim (available servers) [
  | [] ↦ (index, nothing)
  | s ∷ rest ↦ pick (weighted (s ∷ rest)) index
]

-- `key(a) < key(b)` for the keys connections / max(weight, 1), with both sides multiplied out.
abbrev pub conns_of : Dict (String × ℕ) ℕ → UpstreamServer → ℕ
conns_of active s = elim (Dict.get (s.host, s.port) active) [ none ↦ 0 | some n ↦ n ]

unfoldable pub less_loaded : Dict (String × ℕ) ℕ → UpstreamServer → UpstreamServer → Bool
less_loaded active a b =
    ltb (conns_of active a * max b.weight 1) (conns_of active b * max a.weight 1)

-- `min(available, key=key)`: the first of the least.
unfoldable pub least : Dict (String × ℕ) ℕ → UpstreamServer → List UpstreamServer → UpstreamServer
least active best [] = best
least active best (s ∷ rest) = least active (if less_loaded active s best then s else best) rest

-- LeastConnBalancer
unfoldable pub least_conn : Dict (String × ℕ) ℕ → List UpstreamServer → Option UpstreamServer
unfolding less_loaded least
least_conn active servers = elim (filter is_up servers) [
  | [] ↦ none
  | s ∷ rest ↦ some (least active s rest)
]

unfoldable pub increment : UpstreamServer → Dict (String × ℕ) ℕ → Dict (String × ℕ) ℕ
increment s active = Dict.put (s.host, s.port) (conns_of active s + 1) active

unfoldable pub decrement : UpstreamServer → Dict (String × ℕ) ℕ → Dict (String × ℕ) ℕ
decrement s active =
    Dict.put (s.host, s.port)
      (elim (Dict.get (s.host, s.port) active) [ none ↦ 0 | some n ↦ n - 1 ]) active

unfoldable pub total_weight : List UpstreamServer → ℕ
total_weight [] = 0
total_weight (s ∷ rest) = s.weight + total_weight rest

-- The loop over the weights, and `available[-1]` behind it.
unfoldable pub walk : ℕ → UpstreamServer → List UpstreamServer → UpstreamServer
walk idx last [] = last
walk idx last (s ∷ rest) =
    let later = walk (idx - s.weight) s rest in if ltb idx s.weight then s else later

module _ (hash : String → ℕ) where
  -- IpHashBalancer
  unfoldable pub ip_hash : List UpstreamServer → String → Option UpstreamServer
  unfolding total_weight walk
  ip_hash servers client_ip = elim (filter is_up servers) [
    | [] ↦ none
    | s ∷ rest ↦
        let total = total_weight (s ∷ rest) in
        if client_ip == ""
        then some s
        else if total == 0
        then none
        else some (walk (hash client_ip % total) s (s ∷ rest))
  ]

-- The balancers, each as it starts, by the name of its algorithm; `none` stands for the ValueError of an
-- unknown name.
pub data LoadBalancer : Type 0 where
  round_robin_balancer : ℕ → LoadBalancer
  least_conn_balancer : Dict (String × ℕ) ℕ → LoadBalancer
  ip_hash_balancer random_balancer : LoadBalancer

unfoldable pub create_balancer : String → Option LoadBalancer
create_balancer algorithm =
    if algorithm == "round_robin"
    then some (round_robin_balancer 0)
    else if algorithm == "least_conn"
    then some (least_conn_balancer [])
    else if algorithm == "ip_hash"
    then some ip_hash_balancer
    else if algorithm == "random"
    then some random_balancer
    else none
