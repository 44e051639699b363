-- ===== src/Auth/Tests.antt =====
-- The theorems on authentication at concrete challenges.
use local_network_ecosystem.Prelude.{
  ℕ, ◌≤◌, ◌≡◌, ◌↔◌, refl, String, true, false, some, List, [], ◌∷◌, arith, length, max, ◌==◌,
  string_eq, nat_eq, replicate,
}
use local_network_ecosystem.Dict
use local_network_ecosystem.Dict.{IsDistinct}
use local_network_ecosystem.Registry
use local_network_ecosystem.Registry.{ClientRecord, ClientRegistry, new_record}
use local_network_ecosystem.Auth.{
  Crypto, AuthSession, no_pending, verify, verify_auth_response, issue, expire_stale, fresh,
}
use local_network_ecosystem.Auth.Hex.{unhexlify}
use local_network_ecosystem.Auth.Verify.{IsShown, verify_accepts, verify_once}
use local_network_ecosystem.Auth.Guesses.{Response, guesses, guesses-issue}
use local_network_ecosystem.Auth.Expiry.{verify-expire_stale}

-- A key is a text, and a signature fits a challenge of its length.
abbrev lengths : Crypto
lengths = record {
  Key = String;
  load_pem_public_key = λ pem. some pem;
  is_rsa = λ key. true;
  verify = λ key signature challenge. length signature == length challenge;
}

abbrev alice : ClientRegistry
alice = record { clients = ("alice", new_record 0 "alice" "pem") ∷ [] }

abbrev session : AuthSession
session = record {
  ttl = 30;
  max_attempts = 3;
  pending = ("alice", fresh 100 (17 ∷ 255 ∷ []) "alice") ∷ ("bob", fresh 10 (1 ∷ []) "bob") ∷ [];
}

session-IsDistinct : IsDistinct session.pending
unfolding Dict.get
session-IsDistinct = (refl, (refl, tt))

-- The signature "0aff" has two bytes, as has the challenge; "0a" has one.
abbrev good : List ℕ
good = 48 ∷ 97 ∷ 102 ∷ 102 ∷ []

abbrev bad : List ℕ
bad = 48 ∷ 97 ∷ []

alice_is_let_in : (verify lengths 110 alice "alice" [] good session).1 ≡ true
unfolding verify Dict.get Registry.get unhexlify verify_auth_response
alice_is_let_in = refl

verify_accepts_example :
    ((verify lengths 110 alice "alice" [] good session).1 ≡ true)
    ↔ IsShown lengths 110 alice "alice" good session
verify_accepts_example = verify_accepts lengths 110 alice "alice" [] good session

verify_once_example :
    let s' = (verify lengths 110 alice "alice" [] good session).0 in
    verify lengths 111 alice "alice" [] good s' ≡ (s', false, no_pending)
verify_once_example =
    verify_once lengths 110 alice "alice" [] good session alice_is_let_in 111 alice [] good

abbrev guess : Response
guess = record { at = 112; registry = alice; challenge_hex = []; signature_hex = bad }

guesses-issue_example :
    guesses lengths "alice" (replicate 5 guess) (issue 111 (1 ∷ 2 ∷ []) "alice" session).0 ≤ max 1 3
guesses-issue_example = guesses-issue lengths "alice" 111 (1 ∷ 2 ∷ []) (replicate 5 guess) session

verify-expire_stale_example :
    let cleaned = verify lengths 112 alice "alice" [] good (expire_stale 110 session).0 in
    let plain = verify lengths 112 alice "alice" [] good session in
    (cleaned.1 ≡ plain.1) × (cleaned.2 ≡ plain.2)
verify-expire_stale_example =
    verify-expire_stale lengths 110 112 alice "alice" [] good session (omega arith)
      session-IsDistinct
