-- ===== src/Server/Endpoints.antt =====
-- Which endpoints the server tells a client.
use local_network_ecosystem.Prelude.{
  ℕ, ◌≡◌, refl, sym, ◌∙◌, String, true, false, ap, All, ◌++◌, if◌then◌else◌, Option, none, some,
  List, [], ◌∷◌, string_eq, Option-cases, Bool-cases, inl, inr,
}
use local_network_ecosystem.Registry
use local_network_ecosystem.Registry.{ClientRecord}
use local_network_ecosystem.Networks
use local_network_ecosystem.Networks.{NetworkManager, get, is_member, reachable_at}
use local_network_ecosystem.Networks.Access.{may_share, shared_endpoints_for_lem}
use local_network_ecosystem.Server.{error, peer_endpoints, no_shared_network, peer_unavailable}
use local_network_ecosystem.Server.Handlers.{first_shared, endpoints_for}

-- The network is in the list, the peer is a member of it, and of none before it.
pub record IsFirst (m : NetworkManager) (peer_id : String) (networks : List String)
    (network_id : String) : Type 0 where
  pub earlier : List String
  pub later : List String
  pub split : networks ≡ earlier ++ network_id ∷ later
  pub apart : All (λ n. is_member m n peer_id ≡ false) earlier
  pub there : is_member m network_id peer_id ≡ true

first_shared-IsFirst :
    (m : NetworkManager) (peer_id : String) (networks : List String) (network_id : String)
    → first_shared m peer_id networks ≡ some network_id
    → IsFirst m peer_id networks network_id
unfolding first_shared
first_shared-IsFirst m p [] n e = absurd (cc e)
first_shared-IsFirst m p (k ∷ ks) n e = elim (Bool-cases (is_member m k p)) [
  | inl yes_there ↦
      let same : some k ≡ some n = rw yes_there at e in
      let equal : k ≡ n = cc same in
      record {
        earlier = [];
        later = ks;
        split = ap (λ x. x ∷ ks) equal;
        apart = tt;
        there = rw (← equal) yes_there;
      }
  | inr not_there ↦
      let h = first_shared-IsFirst m p ks n (rw not_there at e) in
      record {
        earlier = k ∷ h.earlier;
        later = h.later;
        split = ap (λ xs. k ∷ xs) h.split;
        apart = (not_there, h.apart);
        there = h.there;
      }
]

-- The client is online, and this is its public endpoint, alone in a list.
pub record IsReached (m : NetworkManager) (peer_id : String) (endpoints : List (String × ℕ))
    : Type 0 where
  pub peer : ClientRecord
  pub endpoint : String × ℕ
  pub known : Registry.get m.registry peer_id ≡ some peer
  pub online : peer.online ≡ true
  pub has_endpoint : peer.public_endpoint ≡ some endpoint
  pub alone : endpoints ≡ endpoint ∷ []

reachable_at-IsReached :
    (m : NetworkManager) (peer_id : String) (es : List (String × ℕ))
    → reachable_at (Registry.get m.registry peer_id) ≡ some es
    → IsReached m peer_id es
unfolding reachable_at
reachable_at-IsReached m p es h = go (Registry.get m.registry p) refl h
  where
    at_endpoint :
        (r : ClientRecord)
        → Registry.get m.registry p ≡ some r
        → (endpoint : Option (String × ℕ)) → r.public_endpoint ≡ endpoint
        → elim endpoint [ none ↦ none | some e ↦ if r.online then some (e ∷ []) else none ]
          ≡ some es
        → IsReached m p es
    at_endpoint r known none q h = absurd (cc h)
    at_endpoint r known (some e) q h = elim (Bool-cases r.online) [
      | inl up ↦
          let same : some (e ∷ []) ≡ some es = rw up at h in
          record {
            peer = r;
            endpoint = e;
            known = known;
            online = up;
            has_endpoint = q;
            alone = cc same;
          }
      | inr off ↦ let nothing : none ≡ some es = rw off at h in absurd (cc nothing)
    ]

    go :
        (found : Option ClientRecord)
        → Registry.get m.registry p ≡ found
        → reachable_at found ≡ some es
        → IsReached m p es
    go none q h = let nothing : none ≡ some es = h in absurd (cc nothing)
    go (some r) q h = at_endpoint r q r.public_endpoint refl h

-- The network that is answered from, and what makes the answer allowed.
pub record IsShared (m : NetworkManager) (client_id peer_id : String)
    (endpoints : List (String × ℕ)) : Type 0 where
  pub network_id : String
  pub first : IsFirst m peer_id (Registry.networks_for m.registry client_id) network_id
  pub allowed : may_share (get m network_id) client_id peer_id ≡ true
  pub found : IsReached m peer_id endpoints

-- A client that asks for a peer is told endpoints only when the peer is online and they are its public
-- endpoint alone, and the first network of the client's list that has the peer as a member lets the two
-- share it: both are members, they differ, and in a hub-and-spoke network the peer is the hub.
pub endpoints_for-IsShared :
    (m : NetworkManager) (client_id peer_id : String) (es : List (String × ℕ))
    → endpoints_for m client_id peer_id ≡ peer_endpoints peer_id es
    → IsShared m client_id peer_id es
unfolding endpoints_for
endpoints_for-IsShared m c p es h =
    elim (Option-cases (first_shared m p (Registry.networks_for m.registry c))) [
      | inl e ↦
          let answered : endpoints_for m c p ≡ error no_shared_network =
            rw (e, endpoints_for) refl in
          absurd (cc (answered, h))
      | inr (n, e) ↦ go n e (Networks.shared_endpoints_for m n c p) refl
    ]
  where
    go :
        (n : String)
        → first_shared m p (Registry.networks_for m.registry c) ≡ some n
        → (answer : Option (List (String × ℕ))) → Networks.shared_endpoints_for m n c p ≡ answer
        → IsShared m c p es
    go n e none q =
        let answered : endpoints_for m c p ≡ error peer_unavailable =
          rw (e, endpoints_for) (rw q refl) in
        absurd (cc (answered, h))
    go n e (some []) q =
        let answered : endpoints_for m c p ≡ error peer_unavailable =
          rw (e, endpoints_for) (rw q refl) in
        absurd (cc (answered, h))
    go n e (some (x ∷ xs)) q =
        let answered : endpoints_for m c p ≡ peer_endpoints p (x ∷ xs) =
          rw (e, endpoints_for) (rw q refl) in
        let same : es ≡ x ∷ xs = cc (answered, h) in
        let granted = sym (shared_endpoints_for_lem m n c p) ∙ q in
        elim (Bool-cases (may_share (get m n) c p)) [
          | inl yes_share ↦ record {
            network_id = n;
            first = first_shared-IsFirst m p (Registry.networks_for m.registry c) n e;
            allowed = yes_share;
            found = reachable_at-IsReached m p es (rw same (rw yes_share at granted));
          }
          | inr no_share ↦
              let nothing : none ≡ some (x ∷ xs) = rw no_share at granted in absurd (cc nothing)
        ]
