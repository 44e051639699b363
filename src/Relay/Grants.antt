-- ===== src/Relay/Grants.antt =====
-- When a relay path is granted.
use local_network_ecosystem.Prelude.{
  ◌≡◌, refl, ◌∙◌, sym, String, Bool, true, ◌&&◌, none, some, List, [], ◌∷◌, arith, if◌then◌else◌,
  filter, any, contains, string_eq, pair_eq, ◌==◌, eq_iff, Option-cases, Bool-cases, inl, inr, ◌⊎◌,
}
use local_network_ecosystem.Dict
use local_network_ecosystem.Dict.{Dict, IsDistinct}
use local_network_ecosystem.Registry
use local_network_ecosystem.Registry.{values}
use local_network_ecosystem.Networks
use local_network_ecosystem.Networks.{NetworkManager, NetworkRecord, is_member}
use local_network_ecosystem.Relay.{
  RelayForwarder, has_path, share_network, refusal, handle_relay_request, online_record, failed,
  granted, Refusal, Sent,
}
use local_network_ecosystem.Relay.Writes.{has_path-register}

any-filter {ℓ} :
    {A : Type ℓ} (f g : A → Bool) (xs : List A) → any f (filter g xs) ≡ any (λ x. g x && f x) xs
any-filter f g [] = refl
any-filter f g (x ∷ xs) = ground (arith, any-filter f g xs)

find_any :
    (f : NetworkRecord → Bool) (d : Dict String NetworkRecord)
    → IsDistinct d
    → any f (values d) ≡ true
    → (k : String) × (r : NetworkRecord) × (Dict.get k d ≡ some r) × (f r ≡ true)
unfolding Dict.get
find_any f [] h e = absurd (ground arith)
find_any f ((k, r) ∷ d) h e = elim (Bool-cases (f r)) [
  | inl found ↦ (k, r, ground (arith, eq_iff k k), found)
  | inr other ↦
      let (j, q, at_j, fits) = find_any f d h.1 (ground arith) in
      (j, q, ground (arith, at_j, h.0, eq_iff k j), fits)
]

-- Each network is filed once, under its own id.
pub record IsFiled (m : NetworkManager) : Type 0 where
  pub distinct : IsDistinct m.networks
  pub filed : (n : String) (r : NetworkRecord) → Networks.get m n ≡ some r → r.network_id ≡ n

share_network-members :
    (m : NetworkManager) (a b : String)
    → IsFiled m
    → share_network m a b ≡ true
    → (n : String) × (is_member m n a ≡ true) × (is_member m n b ≡ true)
unfolding share_network Networks.list_for_client Networks.members is_member
share_network-members m a b h e =
    let (n, r, found, fits) =
      find_any (λ r. contains a r.members && contains b (Networks.members m r.network_id))
        m.networks h.distinct (sym (any-filter _ _ (values m.networks)) ∙ e) in
    let own : r.network_id ≡ n = h.filed n r found in
    (n, ground (arith, found, fits, own), ground (arith, found, fits, own))

-- A granted request: both clients are online members of one network, the path then runs both ways,
-- and the requester is told, as is the destination if it is connected.
pub record IsGranted (m : NetworkManager) (connected : String → Bool) (a b : String)
    (s : RelayForwarder) (result : RelayForwarder × List Sent) : Type 0 where
  pub online :
      online_record (Registry.get m.registry a) && online_record (Registry.get m.registry b) ≡ true
  pub network : String
  pub requester_in : is_member m network a ≡ true
  pub peer_in : is_member m network b ≡ true
  pub there : has_path result.0 a b ≡ true
  pub back : has_path result.0 b a ≡ true
  pub told : result.1 ≡ (a, granted b a b) ∷ (if connected b then (b, granted a b a) ∷ [] else [])

abbrev pub IsRefused : RelayForwarder → String → RelayForwarder × List Sent → Type 0
IsRefused s a result = (result.0 ≡ s) × ((why : Refusal) × (result.1 ≡ (a, failed why) ∷ []))

-- A relay request is granted, and then to two online members of one network, or it is refused, and
-- then only the requester is told and no path changes. Each network is filed once and under its own
-- id.
pub handle_relay_request_lem :
    (m : NetworkManager) (connected : String → Bool) (a b : String) (s : RelayForwarder)
    → IsFiled m
    → IsRefused s a (handle_relay_request m connected a b s)
      ⊎ IsGranted m connected a b s (handle_relay_request m connected a b s)
handle_relay_request_lem m connected a b s h = elim (Option-cases (refusal m a b)) [
  | inr (why, e) ↦ inl (unfold handle_relay_request in (ground arith, (why, ground arith)))
  | inl e ↦
      let (n, ma, mb) = share_network-members m a b h (unfold refusal in ground arith) in
      inr (
        unfold handle_relay_request in
        record {
          online = unfold refusal in ground arith;
          network = n;
          requester_in = ma;
          peer_in = mb;
          there = ground (arith, has_path-register a b a b s, eq_iff a a, eq_iff b b);
          back = ground (arith, has_path-register a b b a s, eq_iff a a, eq_iff b b);
          told = ground arith;
        })
]

any_found :
    (f : NetworkRecord → Bool) (d : Dict String NetworkRecord) (k : String) (r : NetworkRecord)
    → Dict.get k d ≡ some r
    → f r ≡ true
    → any f (values d) ≡ true
unfolding Dict.get
any_found f [] k r e h = absurd (ground arith)
any_found f ((j, q) ∷ d) k r e h = elim (Bool-cases (j == k)) [
  | inl same ↦ let eq : q ≡ r = ground arith in rw (eq, h)
  | inr other ↦ ground (arith, any_found f d k r (ground arith) h)
]

record_of_member :
    (m : NetworkManager) (n a : String)
    → is_member m n a ≡ true
    → (r : NetworkRecord) × (Networks.get m n ≡ some r) × (contains a r.members ≡ true)
unfolding is_member
record_of_member m n a e = elim (Option-cases (Networks.get m n)) [
  | inl none_there ↦ absurd (ground arith)
  | inr (r, there) ↦ (r, there, ground arith)
]

-- Two online members of a network are always granted a relay path, where each network is filed once
-- and under its own id.
pub handle_relay_request-IsGranted :
    (m : NetworkManager) (connected : String → Bool) (a b n : String) (s : RelayForwarder)
    → IsFiled m
    → online_record (Registry.get m.registry a) ≡ true
    → online_record (Registry.get m.registry b) ≡ true
    → is_member m n a ≡ true
    → is_member m n b ≡ true
    → IsGranted m connected a b s (handle_relay_request m connected a b s)
handle_relay_request-IsGranted m connected a b n s h oa ob ma mb =
    elim (handle_relay_request_lem m connected a b s h) [
      | inr yes_granted ↦ yes_granted
      | inl refused ↦
          let (r, found, a_in) = record_of_member m n a ma in
          let own : r.network_id ≡ n = h.filed n r found in
          let b_in : contains b (Networks.members m r.network_id) ≡ true =
            unfold Networks.members is_member in ground (arith, own, found, mb) in
          let shared : share_network m a b ≡ true =
            unfold share_network Networks.list_for_client in
            any-filter _ _ (values m.networks)
            ∙ any_found (λ r. contains a r.members && contains b (Networks.members m r.network_id))
                m.networks n r (unfold Networks.get in found) (ground arith) in
          let free : refusal m a b ≡ none = unfold refusal in ground arith in
          absurd (unfold handle_relay_request in ground arith)
    ]
