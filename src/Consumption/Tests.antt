-- ===== src/Consumption/Tests.antt =====
-- Mapping services, one after the other.
use local_network_ecosystem.Prelude.{ℕ, ◌≡◌, refl, Bool, true, not, none, some, [], nat_eq, ◌==◌}
use local_network_ecosystem.Dict
use local_network_ecosystem.Consumption.{ServiceConsumer, map_service, ok, os_error, unmap_service}

abbrev nothing_mapped : ServiceConsumer
nothing_mapped = record { has_control = true; mapped = []; servers = []; udp_transports = [] }

abbrev all_but_50000 : ℕ → Bool
all_but_50000 port = not (port == 50000)

-- The first mapping takes the first port that can be bound, the second the next.
abbrev first_mapped : ServiceConsumer
first_mapped =
    (map_service all_but_50000 0 "m1" (some 1) "s1" "ann" "web" "tcp" none "auto" none
      nothing_mapped).0

second_port :
    (map_service all_but_50000 0 "m2"
      (some 2)
      "s2"
      "ann"
      "dns"
      "udp"
      none
      "same"
      (some 50000)
      first_mapped).2
    ≡ ok 50002
unfolding map_service Dict.put
second_port = refl

-- A listener that cannot be started leaves its mapping behind.
left_behind :
    let (c, effects, result) =
      map_service all_but_50000 0 "m1" none "s1" "ann" "web" "tcp"
        (some 50000)
        "manual"
        none
        nothing_mapped in
    (result ≡ os_error) × ((unmap_service "m1" c).0 ≡ nothing_mapped)
unfolding map_service unmap_service Dict.get Dict.put Dict.remove
left_behind = (refl, refl)
