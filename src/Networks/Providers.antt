-- ===== src/Networks/Providers.antt =====
-- Services belong to the clients that provide them.
use local_network_ecosystem.Prelude.{
  ℕ, ◌≡◌, refl, ◌∙◌, String, true, false, not, ◌&&◌, Option, none, some, [], ◌∷◌, arith,
  if◌then◌else◌, filter, string_eq, ◌==◌, eq_iff, Option-cases, Bool-cases, inl, inr,
}
use local_network_ecosystem.Dict
use local_network_ecosystem.Dict.{Dict, IsDistinct, get-put, get-remove, get-map_values, has-eq}
use local_network_ecosystem.Registry.{values}
use local_network_ecosystem.Networks.{
  NetworkManager, ServiceRecord, ok, value_error, is_member, drop_provider, purge_client,
  purge_networks, purge_network, NetworkRecord,
}
use local_network_ecosystem.Networks.Services.{
  services_of, service, expose_service, list_services, is_provider, remove_owned,
  unexpose_service_owner,
}

-- Where a service is registered.
abbrev pub registered : NetworkManager → String → String → Option ServiceRecord
registered m n id = Dict.get id (services_of m n)

-- expose_service raises exactly for a client that is no member; otherwise it registers the service
-- under its fresh id on that network, and changes no other registration.
expose_service_lem :
    (now : ℕ) (id n c name protocol host : String) (port : ℕ) (m : NetworkManager)
    → (is_member m n c ≡ false → expose_service now id n c name protocol host port m ≡ value_error)
      × (is_member m n c ≡ true
          → (m' : NetworkManager) × (expose_service now id n c name protocol host port m
              ≡ ok (m', id))
            × ((k j : String)
                → registered m' k j ≡ (
                    if n == k && id == j
                    then some (service now id n c name protocol host port)
                    else registered m k j)))
unfolding expose_service
expose_service_lem now id n c name protocol host port m = (
  λ h. ground arith,
  λ h. (
    record m {
      services =
          Dict.put n (Dict.put id (service now id n c name protocol host port) (services_of m n))
            m.services;
    },
    ground arith,
    λ k j. ground (
      arith,
      get-put n k (Dict.put id (service now id n c name protocol host port) (services_of m n))
          m.services,
      get-put id j (service now id n c name protocol host port) (services_of m n),
      eq_iff n k,
    ),
  ),
)

-- What remove_owned leaves under an id, on the first network where its client provides it and on the others.
remove_owned-none :
    (id c : String) (d : Dict String (Dict String ServiceRecord))
    → (remove_owned id c d).1 ≡ none
    → (remove_owned id c d).0 ≡ d
unfolding remove_owned
remove_owned-none id c [] e = refl
remove_owned-none id c ((n, s) ∷ d) e = ground (arith, remove_owned-none id c d)

remove_owned-some :
    (id c n : String) (d : Dict String (Dict String ServiceRecord))
    → IsDistinct d
    → (remove_owned id c d).1 ≡ some n
    → (s : Dict String ServiceRecord) × (Dict.get n d ≡ some s)
      × (is_provider c (Dict.get id s) ≡ true)
      × ((k : String)
          → Dict.get k (remove_owned id c d).0
            ≡ (if n == k then some (Dict.remove id s) else Dict.get k d))
unfolding remove_owned Dict.get
remove_owned-some id c n [] h e = absurd (ground arith)
remove_owned-some id c n ((k, s) ∷ d) h e = elim (Bool-cases (is_provider c (Dict.get id s))) [
  | inl owned ↦ (
    s,
    ground (arith, eq_iff k n),
    owned,
    λ j. ground (arith, eq_iff k n, eq_iff k j, eq_iff n j),
  )
  | inr other ↦
      let (q, found, provided, after) = remove_owned-some id c n d h.1 (ground arith) in
      (
        q,
        ground (arith, eq_iff k n, found),
        provided,
        λ j. ground (arith, after j, found, h.0, eq_iff k j, eq_iff n j, eq_iff k n),
      )
]

-- unexpose_service_owner removes a service only for its provider: if it names a network, that
-- network had the service from this client and has it no longer, with every other registration
-- kept; if it names none, nothing changed. No network has two dictionaries of services.
pub unexpose_service_owner_lem :
    (id c : String) (m : NetworkManager)
    → IsDistinct m.services
    → let (m', found) = unexpose_service_owner id c m in
      (found ≡ none → m' ≡ m)
      × ((n : String)
          → found ≡ some n
          → (is_provider c (registered m n id) ≡ true)
            × ((k j : String)
                → registered m' k j ≡ (if n == k && id == j then none else registered m k j)))
unfolding unexpose_service_owner services_of
unexpose_service_owner_lem id c m h = (
  λ e. ground (arith, remove_owned-none id c m.services),
  λ n e.
      let (s, found, provided, after) = remove_owned-some id c n m.services h e in
      (
        ground (arith, found, provided),
        λ k j. ground (arith, after k, found, get-remove id j s, eq_iff n k),
      ),
)

values-drop_provider :
    (c : String) (d : Dict String ServiceRecord)
    → values (drop_provider c d) ≡ filter (λ svc. not (svc.provider_id == c)) (values d)
unfolding drop_provider
values-drop_provider c [] = refl
values-drop_provider c ((k, s) ∷ d) = ground (arith, values-drop_provider c d)

services-purge_networks :
    (c : String) (d : Dict String NetworkRecord) (m : NetworkManager)
    → (purge_networks c d m).0.services ≡ m.services
unfolding purge_networks
services-purge_networks c [] m = refl
services-purge_networks c ((k, r) ∷ d) m =
    services-purge_networks c d (purge_network c k r m) ∙ (unfold purge_network in ground arith)

-- The services of one network after every one of them was filtered.
values_dropped :
    (c n : String) (d : Dict String (Dict String ServiceRecord))
    → values (elim (Dict.get n (Dict.map_values (drop_provider c) d)) [ none ↦ [] | some s ↦ s ])
      ≡ filter
          (λ svc. not (svc.provider_id == c))
          (values (elim (Dict.get n d) [ none ↦ [] | some s ↦ s ]))
values_dropped c n d = elim (Option-cases (Dict.get n d)) [
  | inl e ↦ rw (get-map_values, e)
  | inr (s, e) ↦ rw (get-map_values, e) (values-drop_provider c s)
]

-- After purge_client every network lists the services that it listed before, without those of that
-- client.
pub purge_client-list_services :
    (c n : String) (m : NetworkManager)
    → list_services (purge_client c m).0 n
      ≡ filter (λ svc. not (svc.provider_id == c)) (list_services m n)
unfolding purge_client list_services services_of
purge_client-list_services c n m = rw services-purge_networks (values_dropped c n m.services)
