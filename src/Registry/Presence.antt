-- ===== src/Registry/Presence.antt =====
-- Who is online: pruning, counting, bans.
use local_network_ecosystem.Prelude.{
  ℕ, ◌+◌, ◌-◌, ◌≡◌, refl, String, Bool, true, false, Option, none, some, List, [], ◌∷◌, arith,
  if◌then◌else◌, length, filter, contains, string_eq, ◌==◌, eq_iff,
}
use local_network_ecosystem.Dict
use local_network_ecosystem.Dict.{Dict, IsDistinct, get-put}
use local_network_ecosystem.Registry.{
  ClientRecord, ClientRegistry, get, get_online, online_count, count_online, values, set_online,
  is_stale, prune_items, prune_stale,
}

-- What a prune with this cutoff leaves of a client.
abbrev pub pruned : ℕ → Option ClientRecord → Option ClientRecord
pruned cutoff none = none
pruned cutoff (some r) = if is_stale cutoff r then some (record r { online = false }) else some r

abbrev pub stale_at : ℕ → Option ClientRecord → Bool
stale_at cutoff none = false
stale_at cutoff (some r) = is_stale cutoff r

pub get-prune_items :
    (cutoff : ℕ) (k : String) (d : Dict String ClientRecord)
    → Dict.get k (prune_items cutoff d).0 ≡ pruned cutoff (Dict.get k d)
unfolding prune_items Dict.get
get-prune_items cutoff k [] = refl
get-prune_items cutoff k ((j, r) ∷ d) = ground (arith, get-prune_items cutoff k d)

contains-prune_items :
    (cutoff : ℕ) (k : String) (d : Dict String ClientRecord)
    → IsDistinct d
    → contains k (prune_items cutoff d).1 ≡ stale_at cutoff (Dict.get k d)
unfolding prune_items Dict.get contains
contains-prune_items cutoff k [] h = refl
contains-prune_items cutoff k ((j, r) ∷ d) h =
    ground (arith, contains-prune_items cutoff k d h.1, eq_iff j k)

-- Where no client has two records, prune_stale marks offline exactly the online clients whose
-- heartbeat is older than the timeout, changes nothing else of any client, and reports exactly
-- those.
pub prune_stale_lem :
    (now timeout : ℕ) (reg : ClientRegistry) (k : String)
    → IsDistinct reg.clients
    → let (reg', stale) = prune_stale now timeout reg in
      (get reg' k ≡ pruned (now - timeout) (get reg k))
      × (contains k stale ≡ stale_at (now - timeout) (get reg k))
unfolding prune_stale get
prune_stale_lem now timeout reg k h = (
  get-prune_items (now - timeout) k reg.clients,
  contains-prune_items (now - timeout) k reg.clients h,
)

prune_items_again :
    (cutoff : ℕ) (d : Dict String ClientRecord)
    → prune_items cutoff (prune_items cutoff d).0 ≡ ((prune_items cutoff d).0, [])
unfolding prune_items
prune_items_again cutoff [] = refl
prune_items_again cutoff ((k, r) ∷ d) = ground (arith, prune_items_again cutoff d)

-- A second prune at the same time and with the same timeout reports nobody and changes nothing.
prune_stale_idem :
    (now timeout : ℕ) (reg : ClientRegistry)
    → let reg' = (prune_stale now timeout reg).0 in prune_stale now timeout reg' ≡ (reg', [])
unfolding prune_stale
prune_stale_idem now timeout reg = ground (arith, prune_items_again (now - timeout) reg.clients)

count_online-filter :
    (rs : List ClientRecord) → count_online rs ≡ length (filter (λ r. r.online) rs)
unfolding count_online
count_online-filter [] = refl
count_online-filter (r ∷ rs) = ground (arith, count_online-filter rs)

-- online_count counts the clients that get_online lists; a prune lowers it by the number of clients
-- that it reports.
online_count_lem :
    (now timeout : ℕ) (reg : ClientRegistry)
    → let (reg', stale) = prune_stale now timeout reg in
      (online_count reg ≡ length (get_online reg))
      × (online_count reg' + length stale ≡ online_count reg)
unfolding online_count get_online prune_stale
online_count_lem now timeout reg = (count_online-filter (values reg.clients), falls reg.clients)
  where
    falls :
        (d : Dict String ClientRecord)
        → count_online (values (prune_items (now - timeout) d).0)
            + length (prune_items (now - timeout) d).1
          ≡ count_online (values d)
    falls [] = refl
    falls ((k, r) ∷ d) = ground (arith, falls d)

-- The entry that set_online leaves of a client, and its answer.
abbrev pub put_online : ℕ → Option ClientRecord → Option ClientRecord × Bool
put_online now none = (none, false)
put_online now (some r) =
    if r.banned
    then (some r, false)
    else (some (record r { online = true; last_heartbeat = now }), true)

-- set_online succeeds exactly for a known client that is not banned, which then is online with a
-- fresh heartbeat; an unknown or banned client stays as it was, and so does every other client.
set_online_lem :
    (now : ℕ) (k j : String) (reg : ClientRegistry)
    → ((set_online now k reg).1 ≡ (put_online now (get reg k)).1)
      × (get (set_online now k reg).0 j
          ≡ (if k == j then (put_online now (get reg k)).0 else get reg j))
unfolding set_online get
set_online_lem now k j reg = (ground arith, grind (arith, get-put, eq_iff))
