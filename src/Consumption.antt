-- ===== src/Consumption.antt =====
-- client/service_consumer.py: the remote services that a client maps to local ports. Which ports can be
-- bound is an argument, `free`; a listener is a number; the id of a mapping is drawn.
pub mod Ports
mod Tests
use local_network_ecosystem.Prelude.{
  ℕ, zero, suc, ◌+◌, String, Bool, true, false, not, ◌&&◌, Option, none, some, List, [], ◌∷◌, ◌++◌,
  if◌then◌else◌, string_eq, nat_eq, ◌==◌, any,
}
use local_network_ecosystem.Dict
use local_network_ecosystem.Dict.{Dict}
use local_network_ecosystem.Registry.{values}

pub record MappedService : Type 0 where
  pub map_id : String
  pub service_id : String
  pub service_name : String
  pub protocol : String
  pub provider_id : String
  pub local_port : ℕ
  pub strategy : String
  pub remote_port : Option ℕ
  pub created_at : ℕ

pub record ServiceConsumer : Type 0 where
  pub has_control : Bool
  pub mapped : Dict String MappedService
  pub servers : Dict String ℕ
  pub udp_transports : Dict String ℕ

pub data Result (A : Type 0) : Type 0 where
  ok : A → Result A
  value_error os_error : Result A

-- What goes to the server, and what is closed.
pub data Effect : Type 0 where
  map_message : String → ℕ → String → Effect
  unmap_message : String → Effect
  close : ℕ → Effect

abbrev pub auto_port_start : ℕ
auto_port_start = 50000

-- AUTO_PORT_END + 1 - AUTO_PORT_START
abbrev pub auto_ports : ℕ
auto_ports = 1000

unfoldable pub is_used : ℕ → List MappedService → Bool
is_used port ms = any (λ m. m.local_port == port) ms

abbrev pub if_control : ServiceConsumer → Effect → List Effect
if_control c e = if c.has_control then e ∷ [] else []

abbrev pub close_effect : Option ℕ → List Effect
close_effect none = []
close_effect (some n) = close n ∷ []

unfoldable pub unmap_service : String → ServiceConsumer → ServiceConsumer × List Effect
unmap_service map_id c = elim (Dict.get map_id c.mapped) [
  | none ↦ (c, [])
  | some m ↦ (
    record c {
      mapped = Dict.remove map_id c.mapped;
      servers = Dict.remove map_id c.servers;
      udp_transports = Dict.remove map_id c.udp_transports;
    },
    close_effect (Dict.get map_id c.servers)
        ++ close_effect (Dict.get map_id c.udp_transports)
        ++ if_control c (unmap_message m.service_id),
  )
]

unfoldable pub list_mapped : ServiceConsumer → List MappedService
list_mapped c = values c.mapped

unfoldable pub unmap_all : List String → ServiceConsumer → ServiceConsumer × List Effect
unfolding unmap_service
unmap_all [] c = (c, [])
unmap_all (map_id ∷ ids) c =
    let (c', closed) = unmap_service map_id c in
    let (c'', later) = unmap_all ids c' in (c'', closed ++ later)

abbrev pub keys : Dict String MappedService → List String
keys [] = []
keys ((k, m) ∷ d) = k ∷ keys d

unfoldable pub shutdown : ServiceConsumer → ServiceConsumer × List Effect
unfolding unmap_all
shutdown c = unmap_all (keys c.mapped) c

module _ (free : ℕ → Bool) where
  -- The loop of `_find_auto_port` over so many ports from this one.
  unfoldable pub first_port : ℕ → ℕ → List MappedService → Result ℕ
  unfolding is_used
  first_port zero port ms = os_error
  first_port (suc n) port ms =
      let later = first_port n (port + 1) ms in
      if not (is_used port ms) && free port then ok port else later

  unfoldable pub find_auto_port : ServiceConsumer → Result ℕ
  unfolding first_port
  find_auto_port c = first_port auto_ports auto_port_start (values c.mapped)

  unfoldable pub find_same_port : Option ℕ → Option ℕ
  find_same_port none = none
  find_same_port (some port) = if free port then some port else none

  -- `self._find_same_port(remote_port) or …`: port 0 counts as none.
  unfoldable pub port_for : String → Option ℕ → Option ℕ → ServiceConsumer → Result ℕ
  unfolding find_auto_port find_same_port
  port_for strategy local_port remote_port c =
      if strategy == "manual"
      then elim local_port [ none ↦ value_error | some port ↦ ok port ]
      else if strategy == "same"
      then elim (find_same_port remote_port) [
        | none ↦ find_auto_port c
        | some port ↦ if port == 0 then find_auto_port c else ok port
      ]
      else if strategy == "auto"
      then find_auto_port c
      else value_error

  -- The listener that is started, or none if the port cannot be bound: the mapping stays even so.
  unfoldable pub listen : MappedService → Option ℕ → ServiceConsumer → ServiceConsumer × Result ℕ
  listen m listener c =
      let tcp = m.protocol == "tcp" in
      let udp = m.protocol == "udp" in
      elim listener [
        | none ↦ (c, if tcp then os_error else if udp then os_error else ok m.local_port)
        | some n ↦ (
          (if tcp
              then record c { servers = Dict.put m.map_id n c.servers }
              else if udp
              then record c { udp_transports = Dict.put m.map_id n c.udp_transports }
              else c),
          ok m.local_port,
        )
      ]

  unfoldable pub map_service :
      ℕ
      → String
      → Option ℕ
      → String
      → String
      → String
      → String
      → Option ℕ
      → String
      → Option ℕ
      → ServiceConsumer
      → ServiceConsumer × List Effect × Result ℕ
  unfolding port_for listen
  map_service now map_id listener service_id provider_id service_name protocol local_port strategy
        remote_port c =
      elim (port_for strategy local_port remote_port c) [
        | value_error ↦ (c, [], value_error)
        | os_error ↦ (c, [], os_error)
        | ok port ↦
            let m : MappedService = record {
              map_id = map_id;
              service_id = service_id;
              service_name = service_name;
              protocol = protocol;
              provider_id = provider_id;
              local_port = port;
              strategy = strategy;
              remote_port = remote_port;
              created_at = now;
            } in
            let (c', bound) =
              listen m listener (record c { mapped = Dict.put map_id m c.mapped }) in
            elim bound [
              | ok p ↦ (c', if_control c (map_message service_id port strategy), ok p)
              | value_error ↦ (c', [], value_error)
              | os_error ↦ (c', [], os_error)
            ]
      ]
