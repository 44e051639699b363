-- ===== src/Balancer/Choice.antt =====
-- The choice by load, and by the client's address.
use local_network_ecosystem.Prelude.{
  All-filter, All-of-filter, ◌⊎◌, ℕ, zero, suc, ◌+◌, ◌-◌, ◌*◌, ◌%◌, ◌≤◌, ◌<◌, ◌≡◌, refl, String,
  true, false, none, some, List, [], ◌∷◌, ◌++◌, arith, ltb, if◌then◌else◌, length, get_elem?,
  replicate, filter, max, All, Bool-cases, inl, inr, length-append, length-replicate, ◌==◌,
  string_eq, addr_eq, nat_eq, eq_iff, addr_beq_iff,
}
use native.Mathlib.Nat.{le_refl, mul-le-mul_right}
use native.Mathlib.Decide.{dec_le}
use local_network_ecosystem.Dict.{Dict, get-put}
use local_network_ecosystem.Balancer.{
  UpstreamServer, is_up, weighted, conns_of, less_loaded, least, least_conn, increment, decrement,
  total_weight, walk, ip_hash,
}

-- A server carries at most as many connections for its weight as another.
abbrev pub NoMore : Dict (String × ℕ) ℕ → UpstreamServer → UpstreamServer → Type 0
NoMore active a b = conns_of active a * max b.weight 1 ≤ conns_of active b * max a.weight 1

cross : (a b c x y z : ℕ) → 0 < y → a * y ≤ b * x → b * z ≤ c * y → a * z ≤ c * x
cross a b c x y z pos h k = elim (dec_le (a * z) (c * x)) [
  | yes p ↦ p
  | no p ↦
      absurd
        (omega (arith, mul-le-mul_right z h, mul-le-mul_right x k, mul-le-mul_right y (not_le p)))
]
  where
    not_le : ¬ (a * z ≤ c * x) → c * x + 1 ≤ a * z
    not_le p = omega arith

NoMore-trans :
    (active : Dict (String × ℕ) ℕ) (a b c : UpstreamServer)
    → NoMore active a b
    → NoMore active b c
    → NoMore active a c
NoMore-trans active a b c h k =
    cross (conns_of active a) (conns_of active b) (conns_of active c) (max a.weight 1)
      (max b.weight 1) (max c.weight 1) (omega arith) h k

NoMore-of_less :
    (active : Dict (String × ℕ) ℕ) (a b : UpstreamServer)
    → let best = if less_loaded active a b then a else b in
      NoMore active best a × NoMore active best b
unfolding less_loaded
NoMore-of_less active a b = elim (Bool-cases (less_loaded active a b)) [
  | inl less ↦ rw less (le_refl _, ground (arith, less))
  | inr not_less ↦ rw not_less (ground (arith, not_less), le_refl _)
]

least-NoMore :
    (active : Dict (String × ℕ) ℕ) (best : UpstreamServer) (rest : List UpstreamServer)
    → All (NoMore active (least active best rest)) (best ∷ rest)
unfolding least
least-NoMore active best [] = (le_refl _, tt)
least-NoMore active best (s ∷ rest) =
    let best' = if less_loaded active s best then s else best in
    let (of_best', of_rest) = least-NoMore active best' rest in
    let (to_s, to_best) = NoMore-of_less active s best in
    let result = least active best' rest in
    (
      NoMore-trans active result best' best of_best' to_best,
      (NoMore-trans active result best' s of_best' to_s, of_rest),
    )

least_keeps {κ} :
    (P : UpstreamServer → Type κ) (active : Dict (String × ℕ) ℕ) (best : UpstreamServer)
    (rest : List UpstreamServer)
    → P best
    → All P rest
    → P (least active best rest)
unfolding least
least_keeps P active best [] p h = p
least_keeps P active best (s ∷ rest) p h = elim (Bool-cases (less_loaded active s best)) [
  | inl less ↦ rw less (least_keeps P active s rest h.0 h.1)
  | inr not_less ↦ rw not_less (least_keeps P active best rest p h.1)
]

-- least_conn selects a server that is up and that, for its weight, carries no more connections than
-- any other that is up; it selects none exactly when none is up. What holds of every server holds of
-- the one selected.
pub least_conn_lem {κ} :
    (P : UpstreamServer → Type κ) (active : Dict (String × ℕ) ℕ) (servers : List UpstreamServer)
    → All P servers
    → ((least_conn active servers ≡ none) × (filter is_up servers ≡ []))
      ⊎ ((s : UpstreamServer) × (least_conn active servers ≡ some s)
          × (is_up s ≡ true)
          × P s
          × All (λ t. is_up t ≡ true → NoMore active s t) servers)
unfolding least_conn
least_conn_lem P active servers h = go (filter is_up servers) refl
  where
    go :
        (ups : List UpstreamServer)
        → filter is_up servers ≡ ups
        → ((least_conn active servers ≡ none) × (filter is_up servers ≡ []))
          ⊎ ((s : UpstreamServer) × (least_conn active servers ≡ some s)
              × (is_up s ≡ true)
              × P s
              × All (λ t. is_up t ≡ true → NoMore active s t) servers)
    go [] e = inl (ground arith, e)
    go (s ∷ rest) e =
        let held : All (λ t. P t × (is_up t ≡ true)) (s ∷ rest) =
          rw e at (All-filter P is_up servers h) in
        let best = least_keeps (λ t. P t × (is_up t ≡ true)) active s rest held.0 held.1 in
        inr (
          least active s rest,
          ground arith,
          best.1,
          best.0,
          All-of-filter (NoMore active (least active s rest)) is_up servers
              (rw e (least-NoMore active s rest)),
        )

-- A connection that is counted and then given back leaves the count of every server as it was.
decrement-increment :
    (active : Dict (String × ℕ) ℕ) (s t : UpstreamServer)
    → conns_of (decrement s (increment s active)) t ≡ conns_of active t
unfolding decrement increment
decrement-increment active s t = grind (arith, get-put, eq_iff, addr_beq_iff)

total_weight-weighted :
    (servers : List UpstreamServer) → length (weighted servers) ≡ total_weight servers
unfolding weighted total_weight
total_weight-weighted [] = refl
total_weight-weighted (s ∷ servers) = ground (
  arith,
  length-append (replicate s.weight s) (weighted servers),
  length-replicate s.weight s,
  total_weight-weighted servers,
)

get_elem?-replicate-append {ℓ} :
    {A : Type ℓ} (w i : ℕ) (x : A) (ys : List A)
    → get_elem? (replicate w x ++ ys) i ≡ (if ltb i w then some x else get_elem? ys (i - w))
get_elem?-replicate-append zero i x ys = ground arith
get_elem?-replicate-append (suc w) zero x ys = ground arith
get_elem?-replicate-append (suc w) (suc i) x ys =
    ground (arith, get_elem?-replicate-append w i x ys)

walk-weighted :
    (i : ℕ) (last : UpstreamServer) (servers : List UpstreamServer)
    → i < total_weight servers
    → get_elem? (weighted servers) i ≡ some (walk i last servers)
unfolding weighted total_weight walk
walk-weighted i last [] h = absurd (omega arith)
walk-weighted i last (s ∷ servers) h = elim (dec_le (suc i) s.weight) [
  | yes p ↦ ground (arith, p, get_elem?-replicate-append s.weight i s (weighted servers))
  | no p ↦ ground (
    arith,
    p,
    get_elem?-replicate-append s.weight i s (weighted servers),
    walk-weighted (i - s.weight) s servers (omega arith),
  )
]

-- With an address, ip_hash selects from the servers that are up, each as often as its weight, the
-- entry at the address's hash modulo the sum of the weights; so the same address and servers always
-- give the same server, and the fallback behind the loop is never reached.
pub ip_hash_lem :
    (hash : String → ℕ) (servers : List UpstreamServer) (client_ip : String)
    → (client_ip == "") ≡ false
    → let ws = weighted (filter is_up servers) in
      ip_hash hash servers client_ip
      ≡ (if length ws == 0 then none else get_elem? ws (hash client_ip % length ws))
unfolding ip_hash
ip_hash_lem hash servers client_ip h = go (filter is_up servers) refl
  where
    go :
        (ups : List UpstreamServer)
        → filter is_up servers ≡ ups
        → ip_hash hash servers client_ip ≡ (
            if length (weighted ups) == 0
            then none
            else get_elem? (weighted ups) (hash client_ip % length (weighted ups)))
    go [] e = unfold weighted in grind (arith, e)
    go (s ∷ rest) e = elim (Bool-cases (total_weight (s ∷ rest) == 0)) [
      | inl zero_total ↦ ground (arith, e, h, zero_total, total_weight-weighted (s ∷ rest))
      | inr positive ↦ ground (
        arith,
        e,
        h,
        positive,
        total_weight-weighted (s ∷ rest),
        walk-weighted (hash client_ip % total_weight (s ∷ rest)) s (s ∷ rest)
            (mod_lt_total positive),
      )
    ]
      where
        mod_lt_total :
            (total_weight (s ∷ rest) == 0) ≡ false
            → hash client_ip % total_weight (s ∷ rest) < total_weight (s ∷ rest)
        mod_lt_total p = ground (arith, p)
