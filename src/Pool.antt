-- ===== src/Pool.antt =====
-- proxy/upstream.py: the connections that are kept open to each server. A stream is known by a number,
-- its writer; `time.time()` is the argument `now`. `get_connection` is two steps, since other tasks run
-- while a connection is opened. A method that closes writers returns them.
pub mod Counts
mod Tests
use local_network_ecosystem.Prelude.{
  ℕ, ◌+◌, String, Bool, true, false, not, ◌&&◌, Option, none, some, List, [], ◌∷◌, ◌++◌, map, ltb,
  if◌then◌else◌, filter, length, string_eq, nat_eq, addr_eq, ◌==◌,
}
use local_network_ecosystem.Dict
use local_network_ecosystem.Dict.{Dict}

pub record PooledConnection : Type 0 where
  pub writer : ℕ
  pub host : String
  pub port : ℕ
  pub created_at : ℕ
  pub last_used : ℕ
  pub in_use : Bool

abbrev pub Pools : Type 0
Pools = Dict (String × ℕ) (List PooledConnection)

pub record UpstreamPool : Type 0 where
  pub max_idle_per_server : ℕ
  pub idle_timeout : ℕ
  pub pools : Pools

unfoldable pub pool_of : String → ℕ → UpstreamPool → List PooledConnection
pool_of host port p = elim (Dict.get (host, port) p.pools) [ none ↦ [] | some conns ↦ conns ]

-- `(now - conn.last_used) > self.idle_timeout`
abbrev pub is_stale : ℕ → ℕ → PooledConnection → Bool
is_stale now timeout c = ltb (c.last_used + timeout) now

-- The first connection that is neither in use nor stale, now in use.
unfoldable pub take_idle : ℕ → ℕ → List PooledConnection → Option (List PooledConnection × ℕ)
take_idle now timeout [] = none
take_idle now timeout (c ∷ rest) =
    let later = take_idle now timeout rest in
    if not c.in_use && not (is_stale now timeout c)
    then some (record c { in_use = true; last_used = now } ∷ rest, c.writer)
    else elim later [ none ↦ none | some (conns, writer) ↦ some (c ∷ conns, writer) ]

-- get_connection up to the opening of a new one; `none` where one has to be opened.
unfoldable pub reuse : ℕ → String → ℕ → UpstreamPool → Option (UpstreamPool × ℕ)
unfolding pool_of take_idle
reuse now host port p = elim (take_idle now p.idle_timeout (pool_of host port p)) [
  | none ↦ none
  | some (conns, writer) ↦ some (record p { pools = Dict.put (host, port) conns p.pools }, writer)
]

abbrev pub opened : ℕ → String → ℕ → ℕ → PooledConnection
opened now host port writer = record {
  writer = writer;
  host = host;
  port = port;
  created_at = now;
  last_used = now;
  in_use = true;
}

-- get_connection once the new one is open.
unfoldable pub keep : ℕ → String → ℕ → ℕ → UpstreamPool → UpstreamPool
unfolding pool_of
keep now host port writer p = record p {
  pools = Dict.put (host, port) (pool_of host port p ++ opened now host port writer ∷ []) p.pools;
}

-- The loop of `release`: whether the writer was found.
unfoldable pub put_back : ℕ → ℕ → List PooledConnection → List PooledConnection × Bool
put_back now writer [] = ([], false)
put_back now writer (c ∷ rest) =
    let (rest', found) = put_back now writer rest in
    if c.writer == writer
    then (record c { in_use = false; last_used = now } ∷ rest, true)
    else (c ∷ rest', found)

unfoldable pub release : ℕ → String → ℕ → ℕ → UpstreamPool → UpstreamPool × List ℕ
unfolding put_back
release now host port writer p = elim (Dict.get (host, port) p.pools) [
  | none ↦ (p, writer ∷ [])
  | some pool ↦
      let (conns, found) = put_back now writer pool in
      if found
      then (record p { pools = Dict.put (host, port) conns p.pools }, [])
      else (p, writer ∷ [])
]

-- The loop of `close_connection`.
unfoldable pub remove_first : ℕ → List PooledConnection → List PooledConnection × List ℕ
remove_first writer [] = ([], [])
remove_first writer (c ∷ rest) =
    let (rest', closed) = remove_first writer rest in
    if c.writer == writer then (rest, c.writer ∷ []) else (c ∷ rest', closed)

unfoldable pub close_connection : String → ℕ → ℕ → UpstreamPool → UpstreamPool × List ℕ
unfolding remove_first
close_connection host port writer p = elim (Dict.get (host, port) p.pools) [
  | none ↦ (p, [])
  | some pool ↦
      let (conns, closed) = remove_first writer pool in
      (record p { pools = Dict.put (host, port) conns p.pools }, closed)
]

abbrev pub is_prunable : ℕ → ℕ → PooledConnection → Bool
is_prunable now timeout c = not c.in_use && is_stale now timeout c

-- The connections of one server that stay, and the writers of those that are closed.
unfoldable pub prune_pool : ℕ → ℕ → List PooledConnection → List PooledConnection × List ℕ
prune_pool now timeout [] = ([], [])
prune_pool now timeout (c ∷ rest) =
    let (kept, closed) = prune_pool now timeout rest in
    if is_prunable now timeout c then (kept, c.writer ∷ closed) else (c ∷ kept, closed)

-- A server without connections is dropped.
abbrev pub unless_empty : String × ℕ → List PooledConnection → Pools → Pools
unless_empty key [] rest = rest
unless_empty key (c ∷ conns) rest = (key, c ∷ conns) ∷ rest

unfoldable pub prune_pools : ℕ → ℕ → Pools → Pools × List ℕ
unfolding prune_pool
prune_pools now timeout [] = ([], [])
prune_pools now timeout ((key, pool) ∷ rest) =
    let (kept, closed) = prune_pool now timeout pool in
    let (rest', closed') = prune_pools now timeout rest in
    (unless_empty key kept rest', closed ++ closed')

-- The number pruned is that of the writers closed.
unfoldable pub prune_idle : ℕ → UpstreamPool → UpstreamPool × List ℕ
unfolding prune_pools
prune_idle now p =
    let (pools, closed) = prune_pools now p.idle_timeout p.pools in
    (record p { pools = pools }, closed)

unfoldable pub count : (PooledConnection → Bool) → List PooledConnection → ℕ
count f [] = 0
count f (c ∷ rest) = (if f c then 1 else 0) + count f rest

unfoldable pub count_all : (PooledConnection → Bool) → Pools → ℕ
unfolding count
count_all f [] = 0
count_all f ((_, pool) ∷ rest) = count f pool + count_all f rest

unfoldable pub active_connections : UpstreamPool → ℕ
active_connections p = count_all (λ c. c.in_use) p.pools

unfoldable pub idle_connections : UpstreamPool → ℕ
idle_connections p = count_all (λ c. not c.in_use) p.pools

abbrev pub writers : Pools → List ℕ
writers [] = []
writers ((_, pool) ∷ rest) = map (λ c. c.writer) pool ++ writers rest

unfoldable pub shutdown : UpstreamPool → UpstreamPool × List ℕ
shutdown p = (record p { pools = [] }, writers p.pools)
