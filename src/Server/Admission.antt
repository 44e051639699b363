-- ===== src/Server/Admission.antt =====
-- What a client that registers changes.
use local_network_ecosystem.Prelude.{
  ℕ, ◌≡◌, refl, ap, String, true, some, arith, string_eq, eq_iff, Bool-cases, Option-cases, inl,
  inr,
}
use local_network_ecosystem.Dict
use local_network_ecosystem.Dict.{Dict, get-put}
use local_network_ecosystem.Registry
use local_network_ecosystem.Registry.{ClientRecord, networks_for}
use local_network_ecosystem.Registry.Views.{get-register, get-modify}
use local_network_ecosystem.Server.{MediationServer, Draws}
use local_network_ecosystem.Server.Daemon.{admit}

-- Networks, services, codes, bans and the relay are the same, and for every client its networks and whether
-- it is banned.
pub record IsUntouched (s t : MediationServer) : Type 0 where
  pub networks : t.networks.networks ≡ s.networks.networks
  pub services : t.networks.services ≡ s.networks.services
  pub codes : t.networks.invite_codes ≡ s.networks.invite_codes
  pub codes_back : t.networks.network_invite_codes ≡ s.networks.network_invite_codes
  pub bans : t.networks.banned_networks ≡ s.networks.banned_networks
  pub relay : t.relay ≡ s.relay
  pub client_networks :
      (k : String) → networks_for t.networks.registry k ≡ networks_for s.networks.registry k
  pub client_bans :
      (k : String)
      → Registry.is_banned t.networks.registry k ≡ Registry.is_banned s.networks.registry k

-- The server with another registry, writers, sign-ins and challenges.
pub changed_only :
    (s t : MediationServer)
    → t.networks ≡ record s.networks { registry = t.networks.registry }
    → t.relay ≡ s.relay
    → ((k : String) → networks_for t.networks.registry k ≡ networks_for s.networks.registry k)
    → ((k : String)
        → Registry.is_banned t.networks.registry k ≡ Registry.is_banned s.networks.registry k)
    → IsUntouched s t
changed_only s t networks relay lists bans = record {
  networks = ap (λ m. m.networks) networks;
  services = ap (λ m. m.services) networks;
  codes = ap (λ m. m.invite_codes) networks;
  codes_back = ap (λ m. m.network_invite_codes) networks;
  bans = ap (λ m. m.banned_networks) networks;
  relay = relay;
  client_networks = lists;
  client_bans = bans;
}

pub untouched : (s : MediationServer) → IsUntouched s s
untouched s = changed_only s s refl refl (λ k. refl) (λ k. refl)

admit_view :
    (draws : Draws) (conn : ℕ) (peer : String × ℕ) (k pem j : String) (s : MediationServer)
    → let s' = admit draws conn peer k pem s in
      (networks_for s'.networks.registry j ≡ networks_for s.networks.registry j)
      × (Registry.is_banned s'.networks.registry j ≡ Registry.is_banned s.networks.registry j)
unfolding admit networks_for Registry.is_banned Registry.set_online Registry.update_endpoint
    Registry.modify Registry.register Registry.get
admit_view draws conn peer k pem j s =
    (grind (arith, get-put, eq_iff), grind (arith, get-put, eq_iff))

pub admit-IsUntouched :
    (draws : Draws) (conn : ℕ) (peer : String × ℕ) (k pem : String) (s : MediationServer)
    → IsUntouched s (admit draws conn peer k pem s)
admit-IsUntouched draws conn peer k pem s =
    changed_only s (admit draws conn peer k pem s) (unfold admit in refl) (unfold admit in refl)
      (λ j. (admit_view draws conn peer k pem j s).0)
      (λ j. (admit_view draws conn peer k pem j s).1)

-- The key and the address that the registry holds for the client are these.
pub record IsHeld (k pem : String) (addr : String × ℕ) (reg : Registry.ClientRegistry)
    : Type 0 where
  pub client : ClientRecord
  pub known : Registry.get reg k ≡ some client
  pub key : client.public_key_pem ≡ pem
  pub endpoint : client.public_endpoint ≡ some addr
  pub ip : client.client_ip ≡ some addr.0

HasKey : String → String → Registry.ClientRegistry → Type 0
HasKey k pem reg = (r : ClientRecord) × (Registry.get reg k ≡ some r) × (r.public_key_pem ≡ pem)

register-HasKey :
    (now : ℕ) (k pem : String) (reg : Registry.ClientRegistry)
    → HasKey k pem (Registry.register now k pem reg).0
unfolding HasKey
register-HasKey now k pem reg = elim (Option-cases (Registry.get reg k)) [
  | inl e ↦ (
    Registry.new_record now k pem,
    rw (get-register now k pem k reg, e) (ground (arith, eq_iff k k)),
    refl,
  )
  | inr (r, e) ↦ (
    record r { public_key_pem = pem },
    rw (get-register now k pem k reg, e) (ground (arith, eq_iff k k)),
    refl,
  )
]

update_endpoint-IsHeld :
    (k pem : String) (addr : String × ℕ) (reg : Registry.ClientRegistry)
    → HasKey k pem reg
    → IsHeld k pem addr (Registry.update_endpoint k addr reg)
unfolding HasKey Registry.update_endpoint
update_endpoint-IsHeld k pem addr reg (r, e, same) =
    let f : ClientRecord → ClientRecord =
      λ q. record q { public_endpoint = some addr; client_ip = some addr.0 } in
    record {
      client = f r;
      known = rw (get-modify f k k reg, e) (ground (arith, eq_iff k k));
      key = same;
      endpoint = refl;
      ip = refl;
    }

set_online-IsHeld :
    (now : ℕ) (k pem : String) (addr : String × ℕ) (reg : Registry.ClientRegistry)
    → IsHeld k pem addr reg
    → IsHeld k pem addr (Registry.set_online now k reg).0
unfolding Registry.set_online Registry.get
set_online-IsHeld now k pem addr reg h =
    let r = h.client in
    let e : Dict.get k reg.clients ≡ some r = unfold Registry.get in h.known in
    elim (Bool-cases r.banned) [
      | inl out ↦ record {
        client = r;
        known = ground (arith, e, out);
        key = h.key;
        endpoint = h.endpoint;
        ip = h.ip;
      }
      | inr ok_in ↦ record {
        client = record r { online = true; last_heartbeat = now };
        known = grind (arith, e, ok_in, get-put, eq_iff);
        key = h.key;
        endpoint = h.endpoint;
        ip = h.ip;
      }
    ]

pub admit-IsHeld :
    (draws : Draws) (conn : ℕ) (peer : String × ℕ) (k pem : String) (s : MediationServer)
    → IsHeld k pem peer (admit draws conn peer k pem s).networks.registry
unfolding admit
admit-IsHeld draws conn peer k pem s =
    let reg = (Registry.register draws.now k pem s.networks.registry).0 in
    set_online-IsHeld draws.now k pem peer (Registry.update_endpoint k peer reg)
      (update_endpoint-IsHeld k pem peer reg (register-HasKey draws.now k pem s.networks.registry))
