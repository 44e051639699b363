-- ===== src/Auth/Guesses.antt =====
-- One challenge bears only so many guesses.
use local_network_ecosystem.Prelude.{
  ℕ, ◌+◌, ◌-◌, ◌≤◌, ◌≡◌, String, Bool, true, false, Option, none, some, List, [], ◌∷◌, arith,
  if◌then◌else◌, string_eq, eq_iff, max,
}
use local_network_ecosystem.Dict
use local_network_ecosystem.Dict.{get-put, get-remove}
use local_network_ecosystem.Registry.{ClientRegistry}
use local_network_ecosystem.Auth.{
  Crypto, PendingAuth, AuthSession, Detail, too_many_attempts, bad_signature, authenticated, verify,
  issue, fresh,
}

-- A response that reaches the server: the time, the registry then, the two texts.
pub record Response : Type 0 where
  pub at : ℕ
  pub registry : ClientRegistry
  pub challenge_hex : List ℕ
  pub signature_hex : List ℕ

-- Whether the signature was held against the client's key.
abbrev pub is_guess : Detail → Bool
is_guess too_many_attempts = true
is_guess bad_signature = true
is_guess authenticated = true
is_guess _ = false

-- The challenge left, and how many guesses it bears still.
abbrev pub guesses_left : ℕ → Option PendingAuth → ℕ
guesses_left max_attempts none = 0
guesses_left max_attempts (some p) = max 1 (max_attempts - p.attempts)

module _ (crypto : Crypto) (k : String) where
  -- The guesses among the answers to a run of responses.
  unfoldable pub guesses : List Response → AuthSession → ℕ
  guesses [] s = 0
  guesses (r ∷ rs) s =
      let (s', done, detail) = verify crypto r.at r.registry k r.challenge_hex r.signature_hex s in
      let n = guesses rs s' in if is_guess detail then 1 + n else n

  verify-guesses_left :
      (r : Response) (s : AuthSession)
      → let (s', ok, detail) = verify crypto r.at r.registry k r.challenge_hex r.signature_hex s in
        (s'.max_attempts ≡ s.max_attempts)
        × ((if is_guess detail then 1 else 0) + guesses_left s.max_attempts (Dict.get k s'.pending)
            ≤ guesses_left s.max_attempts (Dict.get k s.pending))
  unfolding verify
  verify-guesses_left r s = (ground arith, grind (arith, get-put, get-remove, eq_iff k k))

  guesses-le :
      (rs : List Response) (s : AuthSession)
      → guesses rs s ≤ guesses_left s.max_attempts (Dict.get k s.pending)
  unfolding guesses
  guesses-le [] s = omega arith
  guesses-le (r ∷ rs) s = ground (
    arith,
    verify-guesses_left r s,
    guesses-le rs (verify crypto r.at r.registry k r.challenge_hex r.signature_hex s).0,
  )

  -- After a challenge is issued, and until the next one is, at most `max_attempts` signatures (and
  -- never fewer than one) are held against the client's key, whatever responses come.
  pub guesses-issue :
      (now : ℕ) (nonce : List ℕ) (rs : List Response) (s : AuthSession)
      → guesses rs (issue now nonce k s).0 ≤ max 1 s.max_attempts
  unfolding issue
  guesses-issue now nonce rs s = ground (
    arith,
    guesses-le rs (issue now nonce k s).0,
    get-put k k (fresh now nonce k) s.pending,
    eq_iff k k,
  )
