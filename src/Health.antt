-- ===== src/Health.antt =====
-- proxy/health_check.py: which upstream servers are available. `time.monotonic()` is the argument
-- `now`, in ticks since a start from which every server's `last_failure` of 0 is counted.
pub mod Window
mod Tests
use local_network_ecosystem.Prelude.{
  ℕ, ◌+◌, String, Bool, true, false, not, Option, none, some, List, [], ◌∷◌, map, ltb, leb,
  if◌then◌else◌, string_eq, addr_eq,
}
use local_network_ecosystem.Dict
use local_network_ecosystem.Dict.{Dict}

pub record ServerHealth : Type 0 where
  pub host : String
  pub port : ℕ
  pub failures : ℕ
  pub last_failure : ℕ
  pub unavailable : Bool
  pub unavailable_since : ℕ
  pub total_failures : ℕ

pub record HealthMonitor : Type 0 where
  pub max_failures : ℕ
  pub fail_timeout : ℕ
  pub servers : Dict (String × ℕ) ServerHealth

abbrev pub unharmed : String → ℕ → ServerHealth
unharmed host port = record {
  host = host;
  port = port;
  failures = 0;
  last_failure = 0;
  unavailable = false;
  unavailable_since = 0;
  total_failures = 0;
}

-- `now - since > timeout`
abbrev pub has_passed : ℕ → ℕ → ℕ → Bool
has_passed now since timeout = ltb (since + timeout) now

unfoldable pub get_health : String → ℕ → HealthMonitor → Option ServerHealth
get_health host port m = Dict.get (host, port) m.servers

abbrev pub or_unharmed : String → ℕ → Option ServerHealth → ServerHealth
or_unharmed host port none = unharmed host port
or_unharmed host port (some h) = h

-- One more failure, the first of a new window if the last one is too old.
unfoldable pub add_failure : ℕ → ℕ → ServerHealth → ServerHealth
add_failure now timeout h = record h {
  failures = (if has_passed now h.last_failure timeout then 0 else h.failures) + 1;
  total_failures = h.total_failures + 1;
  last_failure = now;
}

unfoldable pub mark : ℕ → ℕ → ServerHealth → ServerHealth
mark now max_failures h =
    if leb max_failures h.failures
    then record h { unavailable = true; unavailable_since = now }
    else h

unfoldable pub record_failure : ℕ → String → ℕ → HealthMonitor → HealthMonitor
unfolding get_health add_failure mark
record_failure now host port m =
    let h = or_unharmed host port (get_health host port m) in
    record m {
      servers =
          Dict.put (host, port) (mark now m.max_failures (add_failure now m.fail_timeout h))
            m.servers;
    }

unfoldable pub record_success : String → ℕ → HealthMonitor → HealthMonitor
unfolding get_health
record_success host port m = elim (get_health host port m) [
  | none ↦ m
  | some h ↦ record m {
    servers = Dict.put (host, port) (record h { failures = 0; unavailable = false }) m.servers;
  }
]

-- A server that has been unavailable for longer than the timeout is tried again.
unfoldable pub is_available : ℕ → String → ℕ → HealthMonitor → HealthMonitor × Bool
unfolding get_health
is_available now host port m = elim (get_health host port m) [
  | none ↦ (m, true)
  | some h ↦
      if not h.unavailable
      then (m, true)
      else if has_passed now h.unavailable_since m.fail_timeout
      then (
        record m {
          servers =
              Dict.put (host, port) (record h { failures = 0; unavailable = false }) m.servers;
        },
        true,
      )
      else (m, false)
]

unfoldable pub list_all : HealthMonitor → List ServerHealth
list_all m = map (λ e. e.1) m.servers
