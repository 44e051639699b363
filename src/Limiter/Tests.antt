-- ===== src/Limiter/Tests.antt =====
-- The theorems on the rate limiter at concrete requests.
use local_network_ecosystem.Prelude.{◌+◌, ◌≡◌, refl, none, some, [], ◌∷◌, arith, min, string_eq}
use local_network_ecosystem.Dict
use local_network_ecosystem.Limiter.{RateWindow, RateLimiter}
use local_network_ecosystem.Limiter.Bounds.{allowed, allowed_lem}

abbrev window : RateWindow
window = record { count = 1; window_start = 5000 }

abbrev limiter : RateLimiter
limiter = record {
  zone_size = 1;
  windows = ("10.0.0.9", window) ∷ ("10.0.0.8", record { count = 4; window_start = 90 }) ∷ [];
  bursts = [];
}

window_there : Dict.get "10.0.0.9" limiter.windows ≡ some window
unfolding Dict.get
window_there = refl

no_credit : Dict.get "10.0.0.9" limiter.bursts ≡ none
unfolding Dict.get
no_credit = refl

allowed_example :
    allowed (5100 ∷ 5200 ∷ 6000 ∷ []) "10.0.0.9" 2 1 limiter + min 1 (2 + 1) ≡ min (1 + 3) (2 + 1)
allowed_example =
    allowed_lem (5100 ∷ 5200 ∷ 6000 ∷ []) "10.0.0.9" 2 1 window limiter (omega arith) window_there
      no_credit (omega arith, (omega arith, (omega arith, tt)))
