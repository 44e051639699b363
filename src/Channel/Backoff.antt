-- ===== src/Channel/Backoff.antt =====
-- How long the client waits before it connects again.
use local_network_ecosystem.Prelude.{
  ℕ, ◌*◌, ◌≤◌, ◌≡◌, refl, sym, subst, min, Bool, true, false, List, [], ◌∷◌, arith, All, All-weaken,
  Bool-cases, inl, inr,
}
use local_network_ecosystem.Channel.{ControlChannel, connect, signed_in, attempt, reconnect_loop}

-- The delay is between the base and the maximum.
pub record IsBounded (c : ControlChannel) : Type 0 where
  pub least : c.reconnect_base_delay ≤ c.backoff
  pub most : c.backoff ≤ c.reconnect_max_delay

attempt-IsBounded :
    (opens signs_in : Bool) (c : ControlChannel)
    → IsBounded c
    → IsBounded (attempt opens signs_in c)
      × ((attempt opens signs_in c).reconnect_base_delay ≡ c.reconnect_base_delay)
      × ((attempt opens signs_in c).reconnect_max_delay ≡ c.reconnect_max_delay)
unfolding attempt connect signed_in
attempt-IsBounded opens signs_in c h =
    let least = h.least in
    let most = h.most in
    (record { least = ground arith; most = ground arith }, ground arith, ground arith)

reconnect_loop-running :
    (opens signs_in : Bool) (rounds : List (Bool × Bool)) (c : ControlChannel)
    → c.stopped ≡ false
    → (reconnect_loop ((opens, signs_in) ∷ rounds) c).0
      ≡ c.backoff ∷ (reconnect_loop rounds (attempt opens signs_in c)).0
unfolding reconnect_loop
reconnect_loop-running opens signs_in rounds c h = ground arith

reconnect_loop-stopped :
    (opens signs_in : Bool) (rounds : List (Bool × Bool)) (c : ControlChannel)
    → c.stopped ≡ true
    → (reconnect_loop ((opens, signs_in) ∷ rounds) c).0 ≡ []
unfolding reconnect_loop
reconnect_loop-stopped opens signs_in rounds c h = ground arith

-- A sleep that is as long as the delays of the channel allow.
abbrev pub IsDelay : ControlChannel → ℕ → Type 0
IsDelay c sleep = (c.reconnect_base_delay ≤ sleep) × (sleep ≤ c.reconnect_max_delay)

-- Whatever the rounds come to, each sleep of the reconnect loop lasts at least the base delay and at most
-- the maximum, if the delay at the start does.
pub reconnect_loop-IsBounded :
    (rounds : List (Bool × Bool)) (c : ControlChannel)
    → IsBounded c
    → All (IsDelay c) (reconnect_loop rounds c).0
reconnect_loop-IsBounded [] c h = unfold reconnect_loop in tt
reconnect_loop-IsBounded ((opens, signs_in) ∷ rounds) c h =
    let (h', base, most) = attempt-IsBounded opens signs_in c h in
    let later = reconnect_loop-IsBounded rounds (attempt opens signs_in c) h' in
    let same : All (IsDelay c) (reconnect_loop rounds (attempt opens signs_in c)).0 =
      All-weaken (reconnect_loop rounds (attempt opens signs_in c)).0
        (λ sleep p. (omega (arith, base, p.0), omega (arith, most, p.1))) later in
    elim (Bool-cases c.stopped) [
      | inl over ↦
          subst (All (IsDelay c)) (sym (reconnect_loop-stopped opens signs_in rounds c over)) tt
      | inr running ↦
          subst (All (IsDelay c)) (sym (reconnect_loop-running opens signs_in rounds c running))
            ((h.least, h.most), same)
    ]

-- While the server takes connections and refuses the sign-in, the delay stays at twice the base, or the
-- maximum if that is less: it does not grow, since each connection sets it back.
pub attempt-refused :
    (c : ControlChannel)
    → (attempt true false c).backoff ≡ min (c.reconnect_base_delay * 2) c.reconnect_max_delay
unfolding attempt connect
attempt-refused c = refl
