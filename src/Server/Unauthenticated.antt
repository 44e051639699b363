-- ===== src/Server/Unauthenticated.antt =====
-- What a connection can do before it has signed in, and how it signs in.
use local_network_ecosystem.Prelude.{
  ℕ, ◌+◌, ◌≤◌, ◌≡◌, refl, ap, sym, subst, String, Bool, true, false, none, some, List, arith,
  string_eq, ◌==◌, eq_iff, Bool-cases, Option-cases, inl, inr,
}
use local_network_ecosystem.Dict
use local_network_ecosystem.Dict.{Dict, get-put}
use local_network_ecosystem.Auth
use local_network_ecosystem.Auth.{Crypto, verify_auth_response, fresh, PendingAuth}
use local_network_ecosystem.Auth.Hex.{unhexlify}
use local_network_ecosystem.Auth.Verify.{IsSigned, IsShown, verify-IsShown, IsShown-verify}
use local_network_ecosystem.Networks.{Bcrypt}
use local_network_ecosystem.Protocol
use local_network_ecosystem.Protocol.{
  Payload, codes, ok, err, validate_register, validate_auth_response,
}
use local_network_ecosystem.Server.{MediationServer, Draws}
use local_network_ecosystem.Server.Daemon.{
  Phase, unregistered, registered, authenticated, refusal, admit, on_register, on_auth, receive,
}
use local_network_ecosystem.Server.Admission.{
  IsUntouched, changed_only, untouched, admit-IsUntouched, IsHeld, admit-IsHeld,
}

abbrev pub is_signed_in : Phase → Bool
is_signed_in (authenticated _) = true
is_signed_in _ = false

-- What a sign-in as this client has shown: the connection had registered as it, and its signature fits the
-- client's challenge and key.
abbrev pub HasShown : Crypto → ℕ → Phase → Payload → MediationServer → String → Type 0
HasShown crypto now phase payload s k =
    (phase ≡ registered k)
    × ((challenge : String) × (signature : String) × (validate_auth_response payload
          ≡ ok (challenge, signature))
        × IsShown crypto now s.networks.registry k (codes signature) s.auth)

on_register-IsUntouched :
    (draws : Draws) (conn : ℕ) (peer : String × ℕ) (payload : Payload) (s : MediationServer)
    → IsUntouched s (on_register draws conn peer payload s).0
      × (is_signed_in (on_register draws conn peer payload s).2 ≡ false)
unfolding on_register admit
on_register-IsUntouched draws conn peer payload s = go (validate_register payload) refl
  where
    go :
        (v : Protocol.Result (String × String))
        → validate_register payload ≡ v
        → IsUntouched s (on_register draws conn peer payload s).0
          × (is_signed_in (on_register draws conn peer payload s).2 ≡ false)
    go (err e) q = rw (q, on_register) (untouched s, refl)
    go (ok (k, pem)) q = elim (Option-cases (refusal k s)) [
      | inl free ↦
          rw (q, on_register)
            (rw (free, on_register) (admit-IsUntouched draws conn peer k pem s, refl))
      | inr (why, e) ↦ rw (q, on_register) (rw (e, on_register) (untouched s, refl))
    ]

on_auth_lem :
    (crypto : Crypto) (bcrypt : Bcrypt) (now conn : ℕ) (k : String) (payload : Payload)
    (s : MediationServer)
    → let (s', _, phase) = on_auth crypto bcrypt now conn k payload s in
      IsUntouched s s'
      × ((j : String) → phase ≡ authenticated j → HasShown crypto now (registered k) payload s j)
unfolding on_auth
on_auth_lem crypto bcrypt now conn k payload s = go (validate_auth_response payload) refl
  where
    go :
        (v : Protocol.Result (String × String))
        → validate_auth_response payload ≡ v
        → IsUntouched s (on_auth crypto bcrypt now conn k payload s).0
          × ((j : String)
              → (on_auth crypto bcrypt now conn k payload s).2 ≡ authenticated j
              → HasShown crypto now (registered k) payload s j)
    go (err e) q = rw (q, on_auth) (untouched s, λ j p. absurd (cc p))
    go (ok (c, g)) q =
        elim (Bool-cases
          (Auth.verify crypto now s.networks.registry k (codes c) (codes g) s.auth).1) [
            | inl yes_in ↦
                rw (q, on_auth)
                  (rw (yes_in, on_auth)
                    (
                      changed_only s _ refl refl (λ i. refl) (λ i. refl),
                      λ j p.
                          let same : k ≡ j = cc p in
                          (
                            ap registered same,
                            (
                              c,
                              g,
                              refl,
                              rw (← same) (
                                  verify-IsShown crypto now s.networks.registry k (codes c)
                                    (codes g) s.auth yes_in),
                            ),
                          ),
                    ))
            | inr no_in ↦
                rw (q, on_auth)
                  (rw (no_in, on_auth)
                    (changed_only s _ refl refl (λ i. refl) (λ i. refl), λ j p. absurd (cc p)))
          ]

-- Until it has signed in, a connection changes no network, service, invite code, relay path, or ban of a
-- network, and for no client the networks that it is in or whether it is banned. Its messages sign it in
-- only as the client that it has registered as, and only by a signature of the pending challenge, not older
-- than its TTL, that verifies under the key that the registry holds for the client.
pub receive_unauthenticated :
    (crypto : Crypto) (bcrypt : Bcrypt) (draws : Draws) (conn : ℕ) (peer : String × ℕ)
    (phase : Phase) (type : String) (payload : Payload) (s : MediationServer)
    → is_signed_in phase ≡ false
    → let (s', _, phase') = receive crypto bcrypt draws conn peer phase type payload s in
      IsUntouched s s'
      × ((k : String) → phase' ≡ authenticated k → HasShown crypto draws.now phase payload s k)
unfolding receive
receive_unauthenticated crypto bcrypt draws conn peer unregistered type payload s h =
    elim (Bool-cases (type == "REGISTER")) [
      | inl yes_register ↦
          let (same, still) = on_register-IsUntouched draws conn peer payload s in
          rw (yes_register, receive) (same, λ k e. absurd (cc (still, e)))
      | inr no_register ↦ rw (no_register, receive) (untouched s, λ k e. absurd (cc e))
    ]
receive_unauthenticated crypto bcrypt draws conn peer (registered j) type payload s h =
    elim (Bool-cases (type == "AUTH_RESPONSE")) [
      | inl yes_auth ↦ rw (yes_auth, receive) (on_auth_lem crypto bcrypt draws.now conn j payload s)
      | inr no_auth ↦ rw (no_auth, receive) (untouched s, λ k e. absurd (cc e))
    ]
receive_unauthenticated crypto bcrypt draws conn peer (authenticated j) type payload s h =
    absurd (cc h)

-- The challenge that the client was let in with, answered in time by the key that it was let in with.
admit_accepts :
    (crypto : Crypto) (draws : Draws) (now conn : ℕ) (peer : String × ℕ)
    (k pem challenge signature : String) (bytes : List ℕ) (s : MediationServer)
    → unhexlify (codes signature) ≡ some bytes
    → IsSigned crypto pem draws.nonce bytes
    → now ≤ draws.now + s.auth.ttl
    → let s' = admit draws conn peer k pem s in
      (Auth.verify crypto now s'.networks.registry k (codes challenge) (codes signature) s'.auth).1
      ≡ true
unfolding admit Auth.issue
admit_accepts crypto draws now conn peer k pem challenge signature bytes s sig fits in_time =
    let s' = admit draws conn peer k pem s in
    let held = admit-IsHeld draws conn peer k pem s in
    IsShown-verify crypto now s'.networks.registry k (codes challenge) (codes signature) s'.auth
      record {
        challenge = fresh draws.now draws.nonce k;
        pending = grind (arith, get-put, eq_iff);
        in_time = in_time;
        signature = bytes;
        reads = sig;
        client = held.client;
        known = held.known;
        signed = subst (λ key. IsSigned crypto key draws.nonce bytes) (sym held.key) fits;
      }

-- Whoever registers as a client that is not banned, while the server has room, replaces its key, its
-- address and its connection, and then signs in as it by a signature that verifies under the new key, in
-- time, whatever key the client had registered before.
pub receive_takes_over :
    (crypto : Crypto) (bcrypt : Bcrypt) (draws draws' : Draws) (conn : ℕ) (peer : String × ℕ)
    (register auth : Payload) (k pem challenge signature : String) (bytes : List ℕ)
    (s : MediationServer)
    → validate_register register ≡ ok (k, pem)
    → refusal k s ≡ none
    → validate_auth_response auth ≡ ok (challenge, signature)
    → unhexlify (codes signature) ≡ some bytes
    → IsSigned crypto pem draws.nonce bytes
    → draws'.now ≤ draws.now + s.auth.ttl
    → let s' = (receive crypto bcrypt draws conn peer unregistered "REGISTER" register s).0 in
      (Dict.get k s'.writers ≡ some conn)
      × IsHeld k pem peer s'.networks.registry
      × ((receive crypto bcrypt draws' conn peer (registered k) "AUTH_RESPONSE" auth s').2
          ≡ authenticated k)
unfolding receive on_register on_auth
receive_takes_over crypto bcrypt draws draws' conn peer register auth k pem challenge signature
      bytes s reg free got sig fits in_time =
    let accepted =
      admit_accepts crypto draws draws'.now conn peer k pem challenge signature bytes s sig fits
        in_time in
    rw (reg, on_register)
      (rw (free, on_register)
        (
          unfold admit in ground (arith, get-put k k conn s.writers, eq_iff k k),
          admit-IsHeld draws conn peer k pem s,
          rw (got, on_auth) (rw (accepted, on_auth) refl),
        ))
