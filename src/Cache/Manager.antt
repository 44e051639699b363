-- ===== src/Cache/Manager.antt =====
-- proxy/cache/manager.py: CacheManager. A text is the list of its code points. `str.upper`, `str.lower`,
-- `str.strip`, `int`, SHA-256 in hexadecimal, and the time of a date, are the parameter `Library`.
use local_network_ecosystem.Prelude.{
  ℕ, ◌-◌, ◌≡◌, refl, String, Bool, true, false, not, ◌&&◌, ◌||◌, Option, none, some, List, [], ◌∷◌,
  ◌++◌, arith, if◌then◌else◌, length, drop, contains, string_eq, nat_eq, ◌==◌, eq_iff, Option-cases,
  inl, inr,
}
use local_network_ecosystem.Dict
use local_network_ecosystem.Dict.{Dict, get-remove, has-eq, get-put}
use local_network_ecosystem.Protocol.{codes, is_prefix}
use local_network_ecosystem.Websocket.Upgrade.{Text, occurs_in, partition, header, same_text}
use local_network_ecosystem.Cache.{DiskCache, ℤ, pos, retrieve, remove}

pub record Library : Type 0 where
  pub upper : Text → Text
  pub lower : Text → Text
  pub strip : Text → Text
  -- none where `int` raises ValueError
  pub int : Text → Option ℤ
  -- the time of a date, in whole ticks, or none where it is no date
  pub date : String → Option ℕ
  pub sha256 : Text → String

pub record CacheManager : Type 0 where
  pub storage : Option DiskCache
  pub default_ttl : ℤ

abbrev pub cacheable_statuses : List ℕ
cacheable_statuses = 200 ∷ 203 ∷ 204 ∷ 206 ∷ 300 ∷ 301 ∷ 404 ∷ 405 ∷ 410 ∷ 414 ∷ 501 ∷ []

unfoldable pub cache_control : Dict String String → Text
unfolding codes header
cache_control response_headers = codes (header "cache-control" response_headers)

-- What is behind the first place where `needle` stands.
unfoldable pub behind : Text → Text → Option Text
unfolding is_prefix
behind needle [] = none
behind needle (c ∷ cs) =
    let later = behind needle cs in
    if is_prefix needle (c ∷ cs) then some (drop (length needle) (c ∷ cs)) else later

-- What stands before the first place where `needle` stands, or all.
unfoldable pub before : Text → Text → Text
unfolding is_prefix
before needle [] = []
before needle (c ∷ cs) =
    let rest = before needle cs in if is_prefix needle (c ∷ cs) then [] else c ∷ rest

-- "|".join(parts)
unfoldable pub join_parts : List Text → Text
join_parts [] = []
join_parts (p ∷ []) = p
join_parts (p ∷ q ∷ ps) = p ++ codes "|" ++ join_parts (q ∷ ps)

-- f"{k}:{v}" for each header, in the order of the sorted names.
unfoldable pub vary_parts : Dict String String → List Text
unfolding codes
vary_parts [] = []
vary_parts ((k, v) ∷ headers) = (codes k ++ codes ":" ++ codes v) ∷ vary_parts headers

module _ (lib : Library) where
  -- `sorted` is the headers in the order of their names.
  unfoldable pub get_cache_key : String → String → Dict String String → String
  unfolding vary_parts join_parts codes
  get_cache_key method path sorted =
      lib.sha256 (join_parts (lib.upper (codes method) ∷ codes path ∷ vary_parts sorted))

  unfoldable pub is_cacheable : String → ℕ → Dict String String → Bool
  unfolding cache_control occurs_in codes same_text contains
  is_cacheable method status response_headers =
      let control = lib.lower (cache_control response_headers) in
      let verb = lib.upper (codes method) in
      if not (same_text verb (codes "GET") || same_text verb (codes "HEAD"))
      then false
      else if not (contains status cacheable_statuses)
      then false
      else if occurs_in (codes "no-store") control || occurs_in (codes "no-cache") control
      then false
      else not (occurs_in (codes "private") control)

  -- The number behind the name of a directive: up to the next place of the name, and there to the first comma.
  unfoldable pub seconds_of : Text → Text → Option ℤ
  unfolding behind before partition
  seconds_of name control = elim (behind name control) [
    | none ↦ none
    | some rest ↦ lib.int (lib.strip (partition 44 (before name rest)).0)
  ]

  unfoldable pub expires_ttl : ℕ → Dict String String → ℤ → ℤ
  unfolding header
  expires_ttl now response_headers default =
      let expires = header "expires" response_headers in
      if expires == ""
      then default
      else elim (lib.date expires) [ none ↦ default | some expiry ↦ pos (expiry - now) ]

  unfoldable pub get_ttl : CacheManager → ℕ → Dict String String → ℤ
  unfolding cache_control seconds_of expires_ttl codes
  get_ttl manager now response_headers =
      let control = lib.lower (cache_control response_headers) in
      elim (seconds_of (codes "max-age=") control) [
        | some n ↦ n
        | none ↦ elim (seconds_of (codes "s-maxage=") control) [
          | some n ↦ n
          | none ↦ expires_ttl now response_headers manager.default_ttl
        ]
      ]

abbrev pub is_some {ℓ} : {A : Type ℓ} → Option A → Bool
is_some none = false
is_some (some a) = true

module _ (digest : String → String) where
  abbrev pub stores : CacheManager → DiskCache → CacheManager
  stores manager c = record manager { storage = some c }

  unfoldable pub is_fresh : ℕ → String → CacheManager → CacheManager × Bool
  is_fresh now key manager = elim manager.storage [
    | none ↦ (manager, false)
    | some c ↦ let (c', found) = retrieve digest now key c in (stores manager c', is_some found)
  ]

  unfoldable pub is_stale : ℕ → String → CacheManager → CacheManager × Bool
  is_stale now key manager = elim manager.storage [
    | none ↦ (manager, false)
    | some c ↦
        let (c', found) = retrieve digest now key c in
        (stores manager c', not (is_some found) && Dict.has key c'.entries)
  ]

  gone :
      (now : ℕ) (key : String) (c : DiskCache)
      → let (c', found) = retrieve digest now key c in
        (not (is_some found) && Dict.has key c'.entries) ≡ false
  unfolding retrieve remove
  gone now key c = elim (Option-cases (Dict.get key c.entries)) [
    | inl missing ↦ ground (arith, missing, has-eq key c.entries)
    | inr (e, at) ↦ ground (
      arith,
      at,
      get-remove key key c.entries,
      eq_iff key key,
      has-eq key (Dict.remove key c.entries),
    )
  ]

  -- is_stale never answers True: an entry whose TTL is past has been removed before it is looked for.
  pub is_stale-never :
      (now : ℕ) (key : String) (manager : CacheManager) → (is_stale now key manager).1 ≡ false
  unfolding is_stale
  is_stale-never now key manager = go manager.storage
    where
      go :
          (storage : Option DiskCache)
          → (is_stale now key (record manager { storage = storage })).1 ≡ false
      go none = refl
      go (some c) = gone now key c
