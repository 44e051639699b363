-- ===== src/Limiter/Bounds.antt =====
-- How many requests get through, and how much the limiter keeps.
use local_network_ecosystem.Prelude.{
  ℕ, zero, suc, ◌+◌, ◌-◌, ◌*◌, ◌≤◌, ◌<◌, ◌≡◌, String, true, not, none, some, List, [], ◌∷◌, arith,
  ltb, leb, if◌then◌else◌, length, filter, drop, All, string_eq, nat_eq, min, beq_self, All-filter,
  All-weaken, Bool-cases, inl, inr,
}
use local_network_ecosystem.Dict
use local_network_ecosystem.Dict.{Dict, get-put}
use local_network_ecosystem.Limiter.{RateWindow, RateLimiter, second, allow, cleanup, is_old}

-- How many of a client's requests, at the given times, are allowed.
unfoldable pub allowed : List ℕ → String → ℕ → ℕ → RateLimiter → ℕ
unfolding allow
allowed [] key rate burst s = 0
allowed (t ∷ ts) key rate burst s =
    let (s', ok) = allow t key rate burst s in (if ok then 1 else 0) + allowed ts key rate burst s'

-- Each request comes within the second that the window began with.
abbrev pub AreWithin : ℕ → List ℕ → Type 0
AreWithin start = All (λ t. t ≤ start + second)

-- One request within the window: the window counts it, and it is allowed while the count is within.
allow_within :
    (t : ℕ) (key : String) (rate burst : ℕ) (w : RateWindow) (s : RateLimiter)
    → 0 < rate
    → Dict.get key s.windows ≡ some w
    → Dict.get key s.bursts ≡ none
    → t ≤ w.window_start + second
    → let (s', ok) = allow t key rate burst s in
      (ok ≡ leb (w.count + 1) (rate + burst))
      × (Dict.get key s'.windows ≡ some (record w { count = w.count + 1 }))
      × (Dict.get key s'.bursts ≡ none)
unfolding allow
allow_within t key rate burst w s pos e free within = (
  ground (arith, e, free),
  ground
      (arith, e, free, get-put key key (record w { count = w.count + 1 }) s.windows, beq_self key),
  ground (arith, e, free),
)

-- Of the requests that a client makes within one window, exactly as many are allowed as the rate and
-- the burst leave after those that the window has counted: all up to that number, and none beyond. The
-- client has a rate and no burst credit.
pub allowed_lem :
    (ts : List ℕ) (key : String) (rate burst : ℕ) (w : RateWindow) (s : RateLimiter)
    → 0 < rate
    → Dict.get key s.windows ≡ some w
    → Dict.get key s.bursts ≡ none
    → AreWithin w.window_start ts
    → allowed ts key rate burst s + min w.count (rate + burst)
      ≡ min (w.count + length ts) (rate + burst)
unfolding allowed
allowed_lem [] key rate burst w s pos e free within = ground arith
allowed_lem (t ∷ ts) key rate burst w s pos e free within =
    let s' = (allow t key rate burst s).0 in
    let (ok, counted, still_free) = allow_within t key rate burst w s pos e free within.0 in
    let rest =
      allowed_lem ts key rate burst (record w { count = w.count + 1 }) s' pos counted still_free
        within.1 in
    rw ok (ground (arith, rest))

length-drop {ℓ} : {A : Type ℓ} (n : ℕ) (xs : List A) → length (drop n xs) ≡ length xs - n
length-drop zero xs = ground arith
length-drop (suc n) [] = ground arith
length-drop (suc n) (x ∷ xs) = ground (arith, length-drop n xs)

All-drop {ℓ κ} : {A : Type ℓ} (P : A → Type κ) (n : ℕ) (xs : List A) → All P xs → All P (drop n xs)
All-drop P zero xs h = h
All-drop P (suc n) [] h = h
All-drop P (suc n) (x ∷ xs) h = All-drop P n xs h.1

All-Unit {ℓ} : {A : Type ℓ} (xs : List A) → All (λ x. Unit {0}) xs
All-Unit [] = tt
All-Unit (x ∷ xs) = (tt, All-Unit xs)

-- After cleanup there are no more windows than the zone holds, and none is older than ten seconds.
cleanup_lem :
    (now : ℕ) (s : RateLimiter)
    → let s' = cleanup now s in
      (length s'.windows ≤ s.zone_size) × All (λ e. now ≤ e.1.window_start + 10 * second) s'.windows
unfolding cleanup
cleanup_lem now s = (ground (arith, length-drop (length recent - s.zone_size) recent), kept)
  where
    recent : Dict String RateWindow
    recent = filter (λ e. not (is_old now e.1)) s.windows

    all_recent : All (λ e. now ≤ e.1.window_start + 10 * second) recent
    all_recent =
        All-weaken recent (λ e h. not_old e.1 h.1)
          (All-filter (λ e. Unit {0}) (λ e. not (is_old now e.1)) s.windows (All-Unit s.windows))
      where
        not_old : (w : RateWindow) → not (is_old now w) ≡ true → now ≤ w.window_start + 10 * second
        not_old w h = ground (arith, h)

    kept : All (λ e. now ≤ e.1.window_start + 10 * second) (cleanup now s).windows
    kept = elim (Bool-cases (ltb s.zone_size (length recent))) [
      | inl over ↦
          unfold cleanup in
          rw over (
            All-drop (λ e. now ≤ e.1.window_start + 10 * second) (length recent - s.zone_size)
              recent all_recent)
      | inr within ↦ unfold cleanup in rw within all_recent
    ]
