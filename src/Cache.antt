-- ===== src/Cache.antt =====
-- proxy/cache/storage.py: responses kept in memory and in files. `time.time()` is the argument `now`, in
-- whole ticks. A file stands under the SHA-256 of its key, the parameter `digest`, and is the entry that was
-- written to it: what `json` has written it reads again.
pub mod Manager
pub mod Index
pub mod Room
pub mod Sizes
pub mod Runs
pub mod Served
mod Tests
use local_network_ecosystem.Prelude.{
  ℕ, zero, suc, ◌+◌, ◌-◌, String, Bool, true, false, not, ◌&&◌, Option, none, some, List, [], ◌∷◌,
  ltb, leb, if◌then◌else◌, length, string_eq, nat_eq, ◌==◌,
}
use local_network_ecosystem.Dict
use local_network_ecosystem.Dict.{Dict}
use local_network_ecosystem.Protocol.{codes, is_prefix}

-- The integers, as a TTL is one.
pub data ℤ : Type 0 where
  pos : ℕ → ℤ
  negsuc : ℕ → ℤ

pub record CacheEntry : Type 0 where
  pub key : String
  pub status : ℕ
  pub headers : Dict String String
  pub body : List ℕ
  pub ttl : ℤ
  pub created_at : ℕ
  pub last_access : ℕ

-- `now - created_at > ttl`
abbrev pub is_past : ℕ → ℕ → ℤ → Bool
is_past now created_at (pos ttl) = ltb (created_at + ttl) now
is_past now created_at (negsuc n) = ltb created_at (now + suc n)

unfoldable pub expired : ℕ → CacheEntry → Bool
expired now e = is_past now e.created_at e.ttl

abbrev pub size : CacheEntry → ℕ
size e = length e.body

pub record DiskCache : Type 0 where
  pub max_size : ℕ
  pub entries : Dict String CacheEntry
  pub current_size : ℕ
  pub files : Dict String CacheEntry

abbrev pub Response : Type 0
Response = ℕ × Dict String String × List ℕ

abbrev pub response : CacheEntry → Response
response e = (e.status, e.headers, e.body)

-- The first key of the least `last_access`.
unfoldable pub least_used : String → ℕ → Dict String CacheEntry → String
least_used best used [] = best
least_used best used ((k, e) ∷ d) =
    let better = least_used k e.last_access d in
    let same = least_used best used d in if ltb e.last_access used then better else same

module _ (digest : String → String) where
  unfoldable pub remove : String → DiskCache → DiskCache
  remove key c =
      let freed : ℕ = elim (Dict.get key c.entries) [
        | none ↦ c.current_size
        | some e ↦ c.current_size - size e
      ] in
      record c {
        entries = Dict.remove key c.entries;
        current_size = freed;
        files = Dict.remove (digest key) c.files;
      }

  unfoldable pub evict_one : DiskCache → DiskCache
  unfolding remove least_used
  evict_one c = elim c.entries [ [] ↦ c | (k, e) ∷ d ↦ remove (least_used k e.last_access d) c ]

  -- The loop of `store`, with no more rounds than there are entries.
  unfoldable pub make_room : ℕ → ℕ → DiskCache → DiskCache
  unfolding evict_one
  make_room zero needed c = c
  make_room (suc n) needed c =
      let room = make_room n needed (evict_one c) in
      if ltb c.max_size (c.current_size + needed) && not (length c.entries == 0) then room else c

  -- `writes` tells whether the file can be written.
  unfoldable pub store :
      ℕ → Bool → String → ℕ → Dict String String → List ℕ → ℤ → DiskCache → DiskCache
  unfolding make_room
  store now writes key status headers body ttl c =
      let e : CacheEntry = record {
        key = key;
        status = status;
        headers = headers;
        body = body;
        ttl = ttl;
        created_at = now;
        last_access = now;
      } in
      let room = make_room (length c.entries) (size e) c in
      if writes
      then record room {
        entries = Dict.put key e room.entries;
        current_size = room.current_size + size e;
        files = Dict.put (digest key) e room.files;
      }
      else room

  -- From memory, or else from the file of the key.
  unfoldable pub retrieve : ℕ → String → DiskCache → DiskCache × Option Response
  unfolding remove expired
  retrieve now key c = elim (Dict.get key c.entries) [
    | some e ↦ if expired now e then (remove key c, none) else (
      record c { entries = Dict.put key (record e { last_access = now }) c.entries },
      some (response e),
    )
    | none ↦ elim (Dict.get (digest key) c.files) [
      | none ↦ (c, none)
      | some e ↦
          if expired now e
          then (record c { files = Dict.remove (digest key) c.files }, none)
          else (c, some (response e))
    ]
  ]

  -- The loop of `purge` over the keys in memory. Every text begins with the empty pattern.
  unfoldable pub purge_keys : String → Dict String CacheEntry → DiskCache → DiskCache × ℕ
  unfolding codes is_prefix remove
  purge_keys key_pattern [] c = (c, 0)
  purge_keys key_pattern ((k, e) ∷ d) c =
      let (c', n) = purge_keys key_pattern d (remove k c) in
      let rest = purge_keys key_pattern d c in
      if is_prefix (codes key_pattern) (codes k) then (c', n + 1) else rest

  unfoldable pub purge : String → DiskCache → DiskCache × ℕ
  unfolding purge_keys
  purge key_pattern c = purge_keys key_pattern c.entries c

abbrev pub entry_count : DiskCache → ℕ
entry_count c = length c.entries
