-- ===== src/Health/Window.antt =====
-- When a server is taken out of service, and for how long.
use local_network_ecosystem.Prelude.{
  ℕ, ◌+◌, ◌≤◌, String, Bool, false, not, ◌&&◌, Option, none, some, List, [], ◌∷◌, string_eq,
  addr_eq,
}
use local_network_ecosystem.Health.{
  ServerHealth, HealthMonitor, record_failure, has_passed, add_failure, mark,
}

abbrev pub is_out : ℕ → ℕ → Option ServerHealth → Bool
is_out now timeout none = false
is_out now timeout (some h) = h.unavailable && not (has_passed now h.unavailable_since timeout)

-- Failures at the given times, oldest first.
unfoldable pub fail_at : List ℕ → String → ℕ → HealthMonitor → HealthMonitor
fail_at [] host port m = m
fail_at (t ∷ ts) host port m = fail_at ts host port (record_failure t host port m)

-- Each time is no more than the timeout after the one before.
abbrev pub AreClose : ℕ → ℕ → List ℕ → Type 0
AreClose timeout last [] = Unit {0}
AreClose timeout last (t ∷ ts) = (t ≤ last + timeout) × AreClose timeout t ts

abbrev pub last_of : ℕ → List ℕ → ℕ
last_of t [] = t
last_of t (u ∷ ts) = last_of u ts

-- One failure of a server, and all of them.
abbrev failed : ℕ → ℕ → ℕ → ServerHealth → ServerHealth
failed timeout max_failures t h = mark t max_failures (add_failure t timeout h)

unfoldable fails : ℕ → ℕ → List ℕ → ServerHealth → ServerHealth
fails timeout max_failures [] h = h
fails timeout max_failures (t ∷ ts) h =
    fails timeout max_failures ts (failed timeout max_failures t h)
