-- ===== src/Health/Tests.antt =====
-- The theorems on availability at a concrete server.
use local_network_ecosystem.Prelude.{[], ◌∷◌, string_eq, addr_eq}
use local_network_ecosystem.Health.{HealthMonitor}
use local_network_ecosystem.Health.Window.{fail_at}

abbrev monitor : HealthMonitor
monitor = record { max_failures = 3; fail_timeout = 10; servers = [] }

abbrev down : HealthMonitor
down = fail_at (100 ∷ 105 ∷ 115 ∷ []) "a" 80 monitor
