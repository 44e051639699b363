-- ===== src/Cache/Served.antt =====
-- What the cache answers with.
use local_network_ecosystem.Prelude.{
  ℕ, suc, ◌+◌, leb, Bool, ◌≡◌, ap, String, true, none, some, List, [], arith, if◌then◌else◌,
  string_eq, eq_iff,
}
use local_network_ecosystem.Dict.{Dict, get-put}
use local_network_ecosystem.Cache.{
  DiskCache, ℤ, pos, negsuc, expired, store, retrieve, purge, purge_keys,
}

-- `now'` is at most the TTL, which may be negative, after `now`.
abbrev pub is_alive : ℕ → ℕ → ℤ → Bool
is_alive now now' (pos ttl) = leb now' (now + ttl)
is_alive now now' (negsuc n) = leb (now' + suc n) now

module _ (digest : String → String) where
  -- A retrieve right after a store, whatever made room for it, gives what was stored up to and with the last
  -- tick of the TTL, counted from the store, and nothing after it.
  pub retrieve-store :
      (now now' : ℕ) (key : String) (status : ℕ) (headers : Dict String String) (body : List ℕ)
      (ttl : ℤ) (c : DiskCache)
      → (retrieve digest now' key (store digest now true key status headers body ttl c)).1
        ≡ (if is_alive now now' ttl then some (status, headers, body) else none)
  unfolding retrieve store expired
  retrieve-store now now' key status headers body (pos ttl) c = grind (arith, get-put, eq_iff)
  retrieve-store now now' key status headers body (negsuc n) c = grind (arith, get-put, eq_iff)

  -- A cache that has nothing in memory, as after a start, purges nothing whatever the pattern, and answers
  -- from the files of its directory afterwards as before.
  pub retrieve-purge :
      (now : ℕ) (key key_pattern : String) (c : DiskCache)
      → c.entries ≡ []
      → ((purge digest key_pattern c).1 ≡ 0)
        × ((retrieve digest now key (purge digest key_pattern c).0).1
            ≡ (retrieve digest now key c).1)
  unfolding purge purge_keys
  retrieve-purge now key key_pattern c none_there =
      (ground arith, ap (λ q. (retrieve digest now key q).1) (ground arith))
