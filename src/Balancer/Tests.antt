-- ===== src/Balancer/Tests.antt =====
-- The balancers' theorems at concrete servers.
use local_network_ecosystem.Prelude.{
  ℕ, ◌%◌, ◌<◌, ◌≡◌, refl, String, Bool, true, false, none, List, [], ◌∷◌, arith, length, get_elem?,
  filter, if◌then◌else◌, ◌==◌, string_eq, nat_eq,
}
use local_network_ecosystem.Balancer.{
  UpstreamServer, chosen, is_up, available, weighted, round_robin, ip_hash,
}
use local_network_ecosystem.Balancer.RoundRobin.{
  IsServing, primaries, kept, passed_over, end, IsShare, weight_sum, rounds, rounds_fair,
  round_robin_in_range,
}
use local_network_ecosystem.Balancer.Choice.{ip_hash_lem}

abbrev server : String → ℕ → Bool → Bool → UpstreamServer
server host weight backup down = record {
  host = host;
  port = 80;
  weight = weight;
  max_conns = 0;
  backup = backup;
  down = down;
}

-- One of weight 2, one that is down, one of weight 1, and a backup.
abbrev servers : List UpstreamServer
servers =
    server "a" 2 false false
    ∷ server "b" 1 false true
    ∷ server "c" 1 false false
    ∷ server "d" 1 true false
    ∷ []

abbrev only_c : List UpstreamServer
only_c = server "a" 2 false true ∷ server "c" 1 false false ∷ []

three_entries : length (weighted (available servers)) ≡ 3
unfolding weighted available
three_entries = refl

abbrev ups : List UpstreamServer
ups = server "a" 2 false false ∷ server "c" 1 false false ∷ []

a_and_c_serve : IsServing servers ups
a_and_c_serve =
    primaries
      (kept (server "a" 2 false false) (refl, refl)
        (passed_over (server "b" 1 false true) (λ h. absurd (cc (h.0)))
          (kept (server "c" 1 false false) (refl, refl)
            (passed_over (server "d" 1 true false) (λ h. absurd (cc (h.1))) end))))
      (λ e. absurd (cc e))

rounds_fair_example :
    let (index, results) = rounds (weight_sum ups) servers 0 in (index ≡ 0) × IsShare ups results
unfolding weight_sum
rounds_fair_example = rounds_fair servers ups a_and_c_serve (omega arith)

round_robin_in_range_example :
    let (i', result) = round_robin servers 2 in
    (i' < length (weighted (available servers))) × ((s : UpstreamServer) × (result ≡ chosen s))
round_robin_in_range_example = round_robin_in_range servers 2 (rw three_entries (omega arith))

ip_hash_example :
    let ws = weighted (filter is_up servers) in
    ip_hash (λ ip. 7) servers "10.0.0.9"
    ≡ (if length ws == 0 then none else get_elem? ws (7 % length ws))
ip_hash_example = ip_hash_lem (λ ip. 7) servers "10.0.0.9" refl
