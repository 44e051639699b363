-- ===== src/Limiter.antt =====
-- proxy/security/rate_limiter.py: requests per second of each client. Times are milliseconds, and
-- `time.monotonic()` is the argument `now`; rates and bursts are whole numbers.
pub mod Bounds
mod Tests
use local_network_ecosystem.Prelude.{
  ℕ, ◌+◌, ◌-◌, ◌*◌, String, Bool, true, false, not, ◌&&◌, Option, none, some, List, [], ◌∷◌, ltb,
  leb, if◌then◌else◌, length, filter, drop, string_eq, nat_eq, ◌==◌,
}
use local_network_ecosystem.Dict
use local_network_ecosystem.Dict.{Dict}

abbrev pub second : ℕ
second = 1000

pub record RateWindow : Type 0 where
  pub count : ℕ
  pub window_start : ℕ

pub record RateLimiter : Type 0 where
  pub zone_size : ℕ
  pub windows : Dict String RateWindow
  pub bursts : Dict String ℕ

-- A window that is missing or older than a second is replaced.
abbrev pub current : ℕ → Option RateWindow → RateWindow
current now none = record { count = 0; window_start = now }
current now (some w) =
    if ltb (w.window_start + second) now then record { count = 0; window_start = now } else w

abbrev pub expiry : Option ℕ → ℕ
expiry none = 0
expiry (some t) = t

unfoldable pub allow : ℕ → String → ℕ → ℕ → RateLimiter → RateLimiter × Bool
allow now key rate burst s =
    if rate == 0
    then (s, true)
    else let w = current now (Dict.get key s.windows) in
      let w' = record w { count = w.count + 1 } in
      let s' = record s { windows = Dict.put key w' s.windows } in
      if leb w'.count (rate + burst)
      then (s', true)
      else (s', ltb 0 burst && ltb now (expiry (Dict.get key s.bursts)))

unfoldable pub set_burst : ℕ → String → ℕ → RateLimiter → RateLimiter
set_burst now key duration s = record s { bursts = Dict.put key (now + duration) s.bursts }

-- `now - window_start > 10.0`
abbrev pub is_old : ℕ → RateWindow → Bool
is_old now w = ltb (w.window_start + 10 * second) now

unfoldable pub cleanup : ℕ → RateLimiter → RateLimiter
cleanup now s =
    let recent = filter (λ e. not (is_old now e.1)) s.windows in
    record s {
      windows =
          if ltb s.zone_size (length recent)
          then drop (length recent - s.zone_size) recent
          else recent;
      bursts = filter (λ e. not (ltb e.1 now)) s.bursts;
    }
