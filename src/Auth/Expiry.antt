-- ===== src/Auth/Expiry.antt =====
-- The cleaning of expired challenges cannot be told from the outside.
use local_network_ecosystem.Prelude.{
  ℕ, ◌≤◌, ◌≡◌, refl, String, Bool, false, Option, none, some, List, [], ◌∷◌, arith, if◌then◌else◌,
  string_eq, eq_iff, contains,
}
use local_network_ecosystem.Dict
use local_network_ecosystem.Dict.{Dict, IsDistinct, get-put, get-remove}
use local_network_ecosystem.Registry.{ClientRegistry}
use local_network_ecosystem.Auth.{
  Crypto, PendingAuth, AuthSession, verify, is_expired, drop_stale, expire_stale,
}

abbrev pub unexpired : ℕ → ℕ → Option PendingAuth → Option PendingAuth
unexpired now ttl none = none
unexpired now ttl (some p) = if is_expired now ttl p then none else some p

abbrev pub expired_at : ℕ → ℕ → Option PendingAuth → Bool
expired_at now ttl none = false
expired_at now ttl (some p) = is_expired now ttl p

get-drop_stale-none :
    (now ttl : ℕ) (k : String) (d : Dict String PendingAuth)
    → Dict.get k d ≡ none
    → (Dict.get k (drop_stale now ttl d).0 ≡ none) × (contains k (drop_stale now ttl d).1 ≡ false)
unfolding drop_stale Dict.get contains
get-drop_stale-none now ttl k [] h = (refl, refl)
get-drop_stale-none now ttl k ((j, p) ∷ d) h = ground (arith, get-drop_stale-none now ttl k d)

get-drop_stale :
    (now ttl : ℕ) (k : String) (d : Dict String PendingAuth)
    → IsDistinct d
    → (Dict.get k (drop_stale now ttl d).0 ≡ unexpired now ttl (Dict.get k d))
      × (contains k (drop_stale now ttl d).1 ≡ expired_at now ttl (Dict.get k d))
unfolding drop_stale Dict.get contains
get-drop_stale now ttl k [] h = (refl, refl)
get-drop_stale now ttl k ((j, p) ∷ d) h =
    ground (arith, get-drop_stale now ttl k d h.1, get-drop_stale-none now ttl k d, eq_iff j k)

-- expire_stale removes exactly the challenges that are older than the TTL, reports exactly their
-- clients, and keeps every other challenge as it is.
expire_stale_lem :
    (now : ℕ) (s : AuthSession) (k : String)
    → IsDistinct s.pending
    → let (s', stale) = expire_stale now s in
      (Dict.get k s'.pending ≡ unexpired now s.ttl (Dict.get k s.pending))
      × (contains k stale ≡ expired_at now s.ttl (Dict.get k s.pending))
unfolding expire_stale
expire_stale_lem now s k h = get-drop_stale now s.ttl k s.pending h

expire_stale_limits :
    (now : ℕ) (s : AuthSession)
    → ((expire_stale now s).0.ttl ≡ s.ttl) × ((expire_stale now s).0.max_attempts ≡ s.max_attempts)
unfolding expire_stale
expire_stale_limits now s = (refl, refl)

-- Whether expire_stale ran before or not, every response that comes no earlier gets the same
-- answer, where no client has two challenges.
pub verify-expire_stale :
    (crypto : Crypto) (now later : ℕ) (reg : ClientRegistry) (k : String)
    (challenge_hex signature_hex : List ℕ) (s : AuthSession)
    → now ≤ later
    → IsDistinct s.pending
    → let cleaned = verify crypto later reg k challenge_hex signature_hex (expire_stale now s).0 in
      let plain = verify crypto later reg k challenge_hex signature_hex s in
      (cleaned.1 ≡ plain.1) × (cleaned.2 ≡ plain.2)
unfolding verify
verify-expire_stale crypto now later reg k challenge_hex signature_hex s h d =
    ground (arith, (expire_stale_lem now s k d).0, expire_stale_limits now s)
