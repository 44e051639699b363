-- ===== src/Networks/Services.antt =====
-- The services that members expose on a network (server/network_manager.py).
use local_network_ecosystem.Prelude.{
  ℕ, String, Bool, true, false, Option, none, some, List, [], ◌∷◌, ◌++◌, map, if◌then◌else◌, filter,
  string_eq, ◌==◌,
}
use local_network_ecosystem.Dict
use local_network_ecosystem.Dict.{Dict}
use local_network_ecosystem.Registry.{values}
use local_network_ecosystem.Networks.{
  NetworkManager, ServiceRecord, Result, ok, value_error, is_member, drop_provider,
}

-- `self._services.get(network_id, {})`
unfoldable pub services_of : NetworkManager → String → Dict String ServiceRecord
services_of m network_id = elim (Dict.get network_id m.services) [ none ↦ [] | some d ↦ d ]

abbrev pub service : ℕ → String → String → String → String → String → String → ℕ → ServiceRecord
service now service_id network_id provider_id name protocol local_host local_port = record {
  service_id = service_id;
  network_id = network_id;
  provider_id = provider_id;
  name = name;
  protocol = protocol;
  local_host = local_host;
  local_port = local_port;
  created_at = now;
}

-- `service_id` is the fresh `uuid4` that the method draws.
unfoldable pub expose_service :
    ℕ
    → String
    → String
    → String
    → String
    → String
    → String
    → ℕ
    → NetworkManager
    → Result (NetworkManager × String)
unfolding services_of
expose_service now service_id network_id provider_id name protocol local_host local_port m =
    if is_member m network_id provider_id
    then ok (
      record m {
        services =
            Dict.put network_id
              (Dict.put service_id
                (service now service_id network_id provider_id name protocol local_host local_port)
                (services_of m network_id))
              m.services;
      },
      service_id,
    )
    else value_error

unfoldable pub unexpose_service : String → String → NetworkManager → NetworkManager × Bool
unexpose_service network_id service_id m = elim (Dict.get network_id m.services) [
  | none ↦ (m, false)
  | some d ↦
      if Dict.has service_id d
      then (record m { services = Dict.put network_id (Dict.remove service_id d) m.services }, true)
      else (m, false)
]

unfoldable pub list_services : NetworkManager → String → List ServiceRecord
unfolding services_of
list_services m network_id = values (services_of m network_id)

-- The loop of `get_service`.
unfoldable pub find_service :
    String → Dict String (Dict String ServiceRecord) → Option ServiceRecord
find_service service_id [] = none
find_service service_id ((_, d) ∷ rest) =
    let later = find_service service_id rest in
    elim (Dict.get service_id d) [ none ↦ later | some svc ↦ some svc ]

unfoldable pub get_service : NetworkManager → String → Option ServiceRecord
unfolding find_service
get_service m service_id = find_service service_id m.services

abbrev pub is_provider : String → Option ServiceRecord → Bool
is_provider client_id none = false
is_provider client_id (some svc) = svc.provider_id == client_id

-- The loop of `unexpose_service_owner`.
unfoldable pub remove_owned :
    String
    → String
    → Dict String (Dict String ServiceRecord)
    → Dict String (Dict String ServiceRecord) × Option String
remove_owned service_id client_id [] = ([], none)
remove_owned service_id client_id ((network_id, d) ∷ rest) =
    let (rest', found) = remove_owned service_id client_id rest in
    if is_provider client_id (Dict.get service_id d)
    then ((network_id, Dict.remove service_id d) ∷ rest, some network_id)
    else ((network_id, d) ∷ rest', found)

unfoldable pub unexpose_service_owner :
    String → String → NetworkManager → NetworkManager × Option String
unfolding remove_owned
unexpose_service_owner service_id client_id m =
    let (services, found) = remove_owned service_id client_id m.services in
    (record m { services = services }, found)

-- The ids that `purge_client_services` removes from one network.
unfoldable pub provided_by : String → Dict String ServiceRecord → List String
provided_by client_id d = map (λ e. e.0) (filter (λ e. e.1.provider_id == client_id) d)

unfoldable pub provided_ids : String → Dict String (Dict String ServiceRecord) → List String
unfolding provided_by
provided_ids client_id [] = []
provided_ids client_id ((_, d) ∷ rest) = provided_by client_id d ++ provided_ids client_id rest

unfoldable pub purge_client_services : String → NetworkManager → NetworkManager × List String
unfolding provided_ids
purge_client_services client_id m = (
  record m { services = Dict.map_values (drop_provider client_id) m.services },
  provided_ids client_id m.services,
)
