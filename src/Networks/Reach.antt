-- ===== src/Networks/Reach.antt =====
-- Every run of the server's calls keeps the member lists and the registry in step.
use local_network_ecosystem.Prelude.{
  ℕ, ◌-◌, ◌≡◌, refl, String, true, Option, none, List, [], ◌∷◌, arith, contains, string_eq, eq_iff,
  inl, inr, Option-cases,
}
use local_network_ecosystem.Dict
use local_network_ecosystem.Dict.{Dict, IsDistinct, get-put, put-IsDistinct, remove-IsDistinct}
use local_network_ecosystem.Registry
use local_network_ecosystem.Registry.{ClientRecord, ClientRegistry, networks_for}
use local_network_ecosystem.Registry.Presence.{get-prune_items}
use local_network_ecosystem.Registry.Views.{is_in, is_known, get-modify, get-register}
use local_network_ecosystem.Networks.{
  Bcrypt, NetworkRecord, NetworkManager, ok, get, admit, leave, is_member, delete, purge_network,
  purge_networks, purge_client, create, chosen_id, join,
}
use local_network_ecosystem.Networks.Invites.{join_by_invite_code}
use local_network_ecosystem.Networks.Cases.{join_cases, create-eq-ok}
use local_network_ecosystem.Networks.Sync.{
  IsSynced, admit-IsSynced, create-IsSynced, join-IsSynced, leave-IsSynced, delete-IsSynced,
  purge_client-IsSynced,
}

-- The calls of the server that change a network, its members or the registry. A client that creates or joins is
-- known to the registry, and a new network's id is not in use.
pub data Step (m : NetworkManager) : NetworkManager → Type 0 where
  created :
      (bcrypt : Bcrypt) (now : ℕ) (uuid : String) (salt : List ℕ)
      (name password owner topology : String) (network_id : Option String) {m' : NetworkManager}
      {r : NetworkRecord}
      → create bcrypt now uuid salt name password owner topology network_id m ≡ ok (m', r)
      → get m (chosen_id uuid network_id) ≡ none
      → is_known m.registry owner ≡ true
      → Step m m'
  joined :
      (bcrypt : Bcrypt) (n c password : String)
      → is_known m.registry c ≡ true
      → Step m (join bcrypt n c password m).0
  joined_by_code :
      (bcrypt : Bcrypt) (code c password : String)
      → is_known m.registry c ≡ true
      → Step m (join_by_invite_code bcrypt code c password m).0
  left : (n c : String) → Step m (leave n c m).0
  deleted : (n c : String) → Step m (delete n c m).0
  purged : (c : String) → Step m (purge_client c m).0
  registered :
      (now : ℕ) (c pem : String)
      → Step m (record m { registry = (Registry.register now c pem m.registry).0 })
  unregistered : (c : String) → Step m (record m { registry = Registry.unregister c m.registry })
  addressed :
      (c : String) (addr : String × ℕ)
      → Step m (record m { registry = Registry.update_endpoint c addr m.registry })
  went_online :
      (now : ℕ) (c : String)
      → Step m (record m { registry = (Registry.set_online now c m.registry).0 })
  heard :
      (now : ℕ) (c : String)
      → Step m (record m { registry = (Registry.heartbeat now c m.registry).0 })
  pruned :
      (now timeout : ℕ)
      → Step m (record m { registry = (Registry.prune_stale now timeout m.registry).0 })

pub data Reach (m : NetworkManager) : NetworkManager → Type 0 where
  here : Reach m m
  next : {m' m'' : NetworkManager} → Reach m m' → Step m' m'' → Reach m m''

-- The manager is in step with its registry, and no network has two records.
pub record IsSound (m : NetworkManager) : Type 0 where
  pub synced : IsSynced m
  pub distinct : IsDistinct m.networks

-- A change of the registry that no network list shows.
registry-IsSound :
    (m : NetworkManager) (reg : ClientRegistry)
    → ((c n : String) → is_in reg c n ≡ is_in m.registry c n)
    → IsSound m
    → IsSound (record m { registry = reg })
registry-IsSound m reg same h = record {
  synced = record { agree = λ n c. unfold is_member in rw same (h.synced.agree n c) };
  distinct = h.distinct;
}

pub is_in-register :
    (now : ℕ) (k pem : String) (reg : ClientRegistry) (c n : String)
    → is_in (Registry.register now k pem reg).0 c n ≡ is_in reg c n
unfolding networks_for contains
is_in-register now k pem reg c n = ground (arith, get-register now k pem c reg, eq_iff k c)

pub is_in-modify :
    (f : ClientRecord → ClientRecord) (k : String) (reg : ClientRegistry) (c n : String)
    → ((r : ClientRecord) → (f r).networks ≡ r.networks)
    → is_in (Registry.modify f k reg) c n ≡ is_in reg c n
unfolding networks_for
is_in-modify f k reg c n keep = grind (arith, get-modify, eq_iff k c, keep)

pub is_in-set_online :
    (now : ℕ) (k : String) (reg : ClientRegistry) (c n : String)
    → is_in (Registry.set_online now k reg).0 c n ≡ is_in reg c n
unfolding networks_for Registry.set_online
is_in-set_online now k reg c n = grind (arith, get-put, eq_iff k c)

is_in-heartbeat :
    (now : ℕ) (k : String) (reg : ClientRegistry) (c n : String)
    → is_in (Registry.heartbeat now k reg).0 c n ≡ is_in reg c n
unfolding networks_for Registry.heartbeat
is_in-heartbeat now k reg c n = grind (arith, get-put, eq_iff k c)

is_in-prune_stale :
    (now timeout : ℕ) (reg : ClientRegistry) (c n : String)
    → is_in (Registry.prune_stale now timeout reg).0 c n ≡ is_in reg c n
unfolding networks_for Registry.prune_stale
is_in-prune_stale now timeout reg c n =
    ground (arith, get-prune_items (now - timeout) c reg.clients)

purge_networks-IsDistinct :
    (c : String) (d : Dict String NetworkRecord) (m : NetworkManager)
    → IsDistinct m.networks
    → IsDistinct (purge_networks c d m).0.networks
unfolding purge_networks
purge_networks-IsDistinct c [] m h = h
purge_networks-IsDistinct c ((n, r) ∷ d) m h =
    purge_networks-IsDistinct c d (purge_network c n r m)
      (unfold purge_network in grind (arith, put-IsDistinct, remove-IsDistinct))

pub join_by_invite_code-IsSound :
    (bcrypt : Bcrypt) (code c password : String) (m : NetworkManager)
    → is_known m.registry c ≡ true
    → IsSound m
    → IsSound (join_by_invite_code bcrypt code c password m).0
unfolding join_by_invite_code
join_by_invite_code-IsSound bcrypt code c password m known h =
    elim (Option-cases (Dict.get code m.invite_codes)) [
      | inl e ↦ rw (e, join_by_invite_code) h
      | inr (n, e) ↦ elim (Option-cases (get m n)) [
        | inl missing ↦ rw (e, join_by_invite_code) (rw (missing, join_by_invite_code) h)
        | inr (r, found) ↦
            let let_in : IsSound (admit n r c m) = record {
              synced = admit-IsSynced n c r m found known h.synced;
              distinct =
                  unfold admit in put-IsDistinct n (record r { members = _ }) m.networks h.distinct;
            } in
            ground (arith, e, found, h, let_in)
      ]
    ]

pub Step-IsSound : {m m' : NetworkManager} → Step m m' → IsSound m → IsSound m'
Step-IsSound {m}
      (created bcrypt now uuid salt name password owner topology network_id {r = r} e fresh known)
      h =
    let e' = (create-eq-ok bcrypt now uuid salt name password owner topology network_id m e).5 in
    record {
      synced =
          create-IsSynced bcrypt now uuid salt name password owner topology network_id m e fresh
            known h.synced;
      distinct = rw e' (put-IsDistinct (chosen_id uuid network_id) r m.networks h.distinct);
    }
Step-IsSound {m} (joined bcrypt n c password known) h = record {
  synced = join-IsSynced bcrypt n c password m known h.synced;
  distinct = elim (join_cases bcrypt n c password m) [
    | inl e ↦ rw e h.distinct
    | inr (r, _, _, _, e) ↦ rw e (unfold admit in put-IsDistinct n _ m.networks h.distinct)
  ];
}
Step-IsSound {m} (joined_by_code bcrypt code c password known) h =
    join_by_invite_code-IsSound bcrypt code c password m known h
Step-IsSound {m} (left n c) h = record {
  synced = leave-IsSynced n c m h.synced;
  distinct = unfold leave in grind (arith, put-IsDistinct);
}
Step-IsSound {m} (deleted n c) h = record {
  synced = delete-IsSynced n c m h.synced;
  distinct = unfold delete in grind (arith, remove-IsDistinct);
}
Step-IsSound {m} (purged c) h = record {
  synced = purge_client-IsSynced c m h.distinct h.synced;
  distinct = unfold purge_client in purge_networks-IsDistinct c m.networks m h.distinct;
}
Step-IsSound {m} (registered now c pem) h =
    registry-IsSound m _ (is_in-register now c pem m.registry) h
Step-IsSound {m} (unregistered c) h =
    registry-IsSound m _
      (λ d n. unfold Registry.unregister in is_in-modify _ c m.registry d n (λ r. refl)) h
Step-IsSound {m} (addressed c addr) h =
    registry-IsSound m _
      (λ d n. unfold Registry.update_endpoint in is_in-modify _ c m.registry d n (λ r. refl)) h
Step-IsSound {m} (went_online now c) h = registry-IsSound m _ (is_in-set_online now c m.registry) h
Step-IsSound {m} (heard now c) h = registry-IsSound m _ (is_in-heartbeat now c m.registry) h
Step-IsSound {m} (pruned now timeout) h =
    registry-IsSound m _ (is_in-prune_stale now timeout m.registry) h
