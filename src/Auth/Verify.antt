-- ===== src/Auth/Verify.antt =====
-- When a response is accepted, and what is left of its challenge.
use local_network_ecosystem.Prelude.{
  ℕ, ◌+◌, ◌≡◌, String, Bool, true, false, Option, some, List, arith, leb, string_eq, ◌==◌, ◌&&◌,
  ◌≤◌, ◌↔◌, none, refl, sym, ◌∙◌, if◌then◌else◌, Bool-cases, inl, inr, eq_iff,
}
use local_network_ecosystem.Dict
use local_network_ecosystem.Dict.{get-put, get-remove}
use local_network_ecosystem.Registry
use local_network_ecosystem.Registry.{ClientRecord, ClientRegistry}
use local_network_ecosystem.Auth.Hex.{unhexlify}
use local_network_ecosystem.Auth.{
  Crypto, PendingAuth, AuthSession, no_pending, verify_auth_response, verify,
}

-- A challenge no older than the TTL, a readable signature, and a client whose key it fits.
abbrev pub acceptable :
    Crypto → ℕ → ℕ → Option PendingAuth → Option (List ℕ) → Option ClientRecord → Bool
acceptable crypto now ttl (some p) (some signature) (some r) =
    leb now (p.created_at + ttl)
    && verify_auth_response crypto r.public_key_pem p.challenge signature
acceptable crypto now ttl _ _ _ = false

-- The key loads, is an RSA key, and the package takes the signature for one of the challenge under it.
pub record IsSigned (crypto : Crypto) (public_key_pem : String) (challenge signature : List ℕ)
    : Type 0 where
  pub key : crypto.Key
  pub loads : crypto.load_pem_public_key public_key_pem ≡ some key
  pub rsa : crypto.is_rsa key ≡ true
  pub verified : crypto.verify key signature challenge ≡ true

pub IsSigned-verify_auth_response :
    (crypto : Crypto) (pem : String) (challenge signature : List ℕ)
    → IsSigned crypto pem challenge signature
    → verify_auth_response crypto pem challenge signature ≡ true
unfolding verify_auth_response
IsSigned-verify_auth_response crypto pem challenge signature h =
    rw (h.loads, verify_auth_response) (rw h.rsa h.verified)

verify_auth_response-IsSigned :
    (crypto : Crypto) (pem : String) (challenge signature : List ℕ)
    → verify_auth_response crypto pem challenge signature ≡ true
    → IsSigned crypto pem challenge signature
unfolding verify_auth_response
verify_auth_response-IsSigned crypto pem challenge signature h =
    go (crypto.load_pem_public_key pem) refl h
  where
    go :
        (loaded : Option crypto.Key)
        → crypto.load_pem_public_key pem ≡ loaded
        → elim loaded [
          | none ↦ false
          | some key ↦ if crypto.is_rsa key then crypto.verify key signature challenge else false
        ]
          ≡ true
        → IsSigned crypto pem challenge signature
    go none e p = absurd (cc p)
    go (some key) e p = elim (Bool-cases (crypto.is_rsa key)) [
      | inl rsa ↦ record { key = key; loads = e; rsa = rsa; verified = rw rsa at p }
      | inr other ↦ let refused : false ≡ true = rw other at p in absurd (cc refused)
    ]

-- What a response shows: a challenge of the client that is pending and no older than the TTL, and a
-- signature of it, in hexadecimal, that fits the key of the client's record.
pub record IsShown (crypto : Crypto) (now : ℕ) (reg : ClientRegistry) (k : String)
    (signature_hex : List ℕ) (s : AuthSession) : Type 0 where
  pub challenge : PendingAuth
  pub pending : Dict.get k s.pending ≡ some challenge
  pub in_time : now ≤ challenge.created_at + s.ttl
  pub signature : List ℕ
  pub reads : unhexlify signature_hex ≡ some signature
  pub client : ClientRecord
  pub known : Registry.get reg k ≡ some client
  pub signed : IsSigned crypto client.public_key_pem challenge.challenge signature

module _ (crypto : Crypto) (now : ℕ) (reg : ClientRegistry) (k : String)
    (challenge_hex signature_hex : List ℕ) (s : AuthSession) where
  verify-acceptable :
      (verify crypto now reg k challenge_hex signature_hex s).1
      ≡ acceptable crypto now s.ttl
          (Dict.get k s.pending)
          (unhexlify signature_hex)
          (Registry.get reg k)
  unfolding verify
  verify-acceptable = ground arith

  pub IsShown-verify :
      IsShown crypto now reg k signature_hex s
      → (verify crypto now reg k challenge_hex signature_hex s).1 ≡ true
  IsShown-verify h =
      let in_time = h.in_time in
      let fits =
        IsSigned-verify_auth_response crypto h.client.public_key_pem h.challenge.challenge
          h.signature h.signed in
      verify-acceptable ∙ rw (h.pending, h.reads, h.known, fits) (ground arith)

  pub verify-IsShown :
      (verify crypto now reg k challenge_hex signature_hex s).1 ≡ true
      → IsShown crypto now reg k signature_hex s
  verify-IsShown e =
      go (Dict.get k s.pending) refl (unhexlify signature_hex) refl (Registry.get reg k) refl
        (sym verify-acceptable ∙ e)
    where
      go :
          (pending : Option PendingAuth)
          → Dict.get k s.pending ≡ pending
          → (signature : Option (List ℕ)) → unhexlify signature_hex ≡ signature
          → (client : Option ClientRecord) → Registry.get reg k ≡ client
          → acceptable crypto now s.ttl pending signature client ≡ true
          → IsShown crypto now reg k signature_hex s
      go (some p) e1 (some signature) e2 (some r) e3 h = record {
        challenge = p;
        pending = e1;
        in_time = ground arith;
        signature = signature;
        reads = e2;
        client = r;
        known = e3;
        signed =
            verify_auth_response-IsSigned crypto r.public_key_pem p.challenge signature
              (ground arith);
      }
      go none e1 o2 e2 o3 e3 h = absurd (cc h)
      go (some p) e1 none e2 o3 e3 h = absurd (cc h)
      go (some p) e1 (some signature) e2 none e3 h = absurd (cc h)

  -- verify answers True exactly when a challenge is pending for the client and no older than the TTL, the
  -- signature is hexadecimal, the client is registered, and its key loads, is an RSA key and verifies the
  -- signature of that challenge.
  pub verify_accepts :
      ((verify crypto now reg k challenge_hex signature_hex s).1 ≡ true)
      ↔ IsShown crypto now reg k signature_hex s
  verify_accepts = (verify-IsShown, IsShown-verify)

  -- An accepted response uses the challenge up: a second one finds none, whatever it holds.
  pub verify_once :
      (verify crypto now reg k challenge_hex signature_hex s).1 ≡ true
      → (now' : ℕ) (reg' : ClientRegistry) (challenge_hex' signature_hex' : List ℕ)
      → let s' = (verify crypto now reg k challenge_hex signature_hex s).0 in
        verify crypto now' reg' k challenge_hex' signature_hex' s' ≡ (s', false, no_pending)
  unfolding verify
  verify_once e now' reg' challenge_hex' signature_hex' =
      ground (arith, get-remove k k s.pending, eq_iff k k)

  -- A response of one client leaves the challenges of all others as they are.
  verify_others :
      (j : String)
      → (k == j) ≡ false
      → Dict.get j (verify crypto now reg k challenge_hex signature_hex s).0.pending
        ≡ Dict.get j s.pending
  unfolding verify
  verify_others j h = grind (arith, get-put, get-remove)
