-- ===== src/Registry/Named.antt =====
-- The registry's invariant, over every sequence of its operations.
use local_network_ecosystem.Prelude.{
  ℕ, ◌-◌, ◌≡◌, refl, String, true, false, some, List, [], ◌∷◌, arith, string_eq, ◌∙◌, eq_iff,
  Bool-cases, Option-cases, inl, inr,
}
use local_network_ecosystem.Dict
use local_network_ecosystem.Dict.{
  Dict, IsDistinct, get-put, get-remove, put-IsDistinct, remove-IsDistinct,
}
use local_network_ecosystem.Registry.{
  ClientRecord, ClientRegistry, get, modify, prune_items, new_record,
}
use local_network_ecosystem.Registry
use local_network_ecosystem.Registry.Presence.{get-prune_items}

-- No client has two records, and each record is filed under its own client_id.
pub record IsNamed (reg : ClientRegistry) : Type 0 where
  pub distinct : IsDistinct reg.clients
  pub named : (k : String) (r : ClientRecord) → get reg k ≡ some r → r.client_id ≡ k

-- The calls that change the registry.
pub data Call : Type 0 where
  register : ℕ → String → String → Call
  unregister forget : String → Call
  set_online heartbeat : ℕ → String → Call
  update_endpoint : String → String × ℕ → Call
  prune_stale : ℕ → ℕ → Call
  add_network remove_network : String → String → Call

unfoldable pub apply : Call → ClientRegistry → ClientRegistry
apply (Call.register now k pem) reg = (Registry.register now k pem reg).0
apply (Call.unregister k) reg = Registry.unregister k reg
apply (Call.forget k) reg = Registry.forget k reg
apply (Call.set_online now k) reg = (Registry.set_online now k reg).0
apply (Call.heartbeat now k) reg = (Registry.heartbeat now k reg).0
apply (Call.update_endpoint k addr) reg = Registry.update_endpoint k addr reg
apply (Call.prune_stale now timeout) reg = (Registry.prune_stale now timeout reg).0
apply (Call.add_network k n) reg = Registry.add_network k n reg
apply (Call.remove_network k n) reg = Registry.remove_network k n reg

unfoldable pub run : List Call → ClientRegistry → ClientRegistry
unfolding apply
run [] reg = reg
run (c ∷ cs) reg = run cs (apply c reg)

put-IsNamed :
    (k : String) (r : ClientRecord) (reg : ClientRegistry)
    → r.client_id ≡ k
    → IsNamed reg
    → IsNamed (record reg { clients = Dict.put k r reg.clients })
unfolding get
put-IsNamed k r reg e h = record {
  distinct = put-IsDistinct k r reg.clients h.distinct;
  named = λ j s p. ground (arith, get-put k j r reg.clients, h.named j s, eq_iff k j);
}

modify-IsNamed :
    (f : ClientRecord → ClientRecord) (k : String) (reg : ClientRegistry)
    → ((r : ClientRecord) → (f r).client_id ≡ r.client_id)
    → IsNamed reg
    → IsNamed (modify f k reg)
unfolding modify
modify-IsNamed f k reg keep h = elim (Option-cases (get reg k)) [
  | inl e ↦ rw (e, modify, get) h
  | inr (r, e) ↦ rw (e, modify, get) (put-IsNamed k (f r) reg (keep r ∙ h.named k r e) h)
]

prune_items-IsDistinct :
    (cutoff : ℕ) (d : Dict String ClientRecord) → IsDistinct d → IsDistinct (prune_items cutoff d).0
unfolding prune_items
prune_items-IsDistinct cutoff [] h = h
prune_items-IsDistinct cutoff ((k, r) ∷ d) h =
    ground (arith, prune_items-IsDistinct cutoff d h.1, get-prune_items cutoff k d)

prune_stale-IsNamed :
    (now timeout : ℕ) (reg : ClientRegistry)
    → IsNamed reg
    → IsNamed (Registry.prune_stale now timeout reg).0
unfolding Registry.prune_stale get
prune_stale-IsNamed now timeout reg h = record {
  distinct = prune_items-IsDistinct (now - timeout) reg.clients h.distinct;
  named = λ k r p. grind (arith, get-prune_items, h.named k);
}

register-IsNamed :
    (now : ℕ) (k pem : String) (reg : ClientRegistry)
    → IsNamed reg
    → IsNamed (Registry.register now k pem reg).0
unfolding Registry.register
register-IsNamed now k pem reg h = elim (Option-cases (get reg k)) [
  | inl e ↦ rw (e, Registry.register, get) (put-IsNamed k (new_record now k pem) reg refl h)
  | inr (r, e) ↦
      rw (e, Registry.register, get)
        (put-IsNamed k (record r { public_key_pem = pem }) reg (h.named k r e) h)
]

set_online-IsNamed :
    (now : ℕ) (k : String) (reg : ClientRegistry)
    → IsNamed reg
    → IsNamed (Registry.set_online now k reg).0
unfolding Registry.set_online
set_online-IsNamed now k reg h = elim (Option-cases (get reg k)) [
  | inl e ↦ rw (e, Registry.set_online, get) h
  | inr (r, e) ↦ elim (Bool-cases r.banned) [
    | inl banned ↦ rw (e, Registry.set_online, get) (rw banned h)
    | inr free ↦
        rw (e, Registry.set_online, get)
          (rw free (
            put-IsNamed k (record r { online = true; last_heartbeat = now; banned = false }) reg
              (h.named k r e) h))
  ]
]

heartbeat-IsNamed :
    (now : ℕ) (k : String) (reg : ClientRegistry)
    → IsNamed reg
    → IsNamed (Registry.heartbeat now k reg).0
unfolding Registry.heartbeat
heartbeat-IsNamed now k reg h = elim (Option-cases (get reg k)) [
  | inl e ↦ rw (e, Registry.heartbeat, get) h
  | inr (r, e) ↦
      rw (e, Registry.heartbeat, get)
        (put-IsNamed k (record r { last_heartbeat = now; online = true }) reg (h.named k r e) h)
]

apply-IsNamed : (c : Call) (reg : ClientRegistry) → IsNamed reg → IsNamed (apply c reg)
unfolding apply
apply-IsNamed (Call.register now k pem) reg h = register-IsNamed now k pem reg h
apply-IsNamed (Call.unregister k) reg h =
    unfold Registry.unregister in modify-IsNamed _ k reg (λ r. refl) h
apply-IsNamed (Call.forget k) reg h =
    unfold Registry.forget get in
    record {
      distinct = remove-IsDistinct k reg.clients h.distinct;
      named = λ j r p. ground (arith, get-remove k j reg.clients, h.named j r);
    }
apply-IsNamed (Call.set_online now k) reg h = set_online-IsNamed now k reg h
apply-IsNamed (Call.heartbeat now k) reg h = heartbeat-IsNamed now k reg h
apply-IsNamed (Call.update_endpoint k addr) reg h =
    unfold Registry.update_endpoint in modify-IsNamed _ k reg (λ r. refl) h
apply-IsNamed (Call.prune_stale now timeout) reg h = prune_stale-IsNamed now timeout reg h
apply-IsNamed (Call.add_network k n) reg h =
    unfold Registry.add_network in modify-IsNamed _ k reg (λ r. refl) h
apply-IsNamed (Call.remove_network k n) reg h =
    unfold Registry.remove_network in modify-IsNamed _ k reg (λ r. refl) h

-- From a registry where every record is filed once and under its own client_id, so does every
-- sequence of the calls that change it leave it.
pub run-IsNamed : (cs : List Call) (reg : ClientRegistry) → IsNamed reg → IsNamed (run cs reg)
unfolding run
run-IsNamed [] reg h = h
run-IsNamed (c ∷ cs) reg h = run-IsNamed cs (apply c reg) (apply-IsNamed c reg h)
