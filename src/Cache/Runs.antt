-- ===== src/Cache/Runs.antt =====
-- What any run of calls leaves in memory.
use local_network_ecosystem.Prelude.{
  ℕ, zero, suc, ◌+◌, ◌≤◌, ◌≡◌, refl, ◌∙◌, String, Bool, true, false, List, [], ◌∷◌, arith, length,
  string_eq, Option-cases, Bool-cases, inl, inr,
}
use local_network_ecosystem.Dict
use local_network_ecosystem.Dict.{Dict, put-IsDistinct, length-put, has-eq}
use local_network_ecosystem.Cache.{
  CacheEntry, DiskCache, ℤ, expired, make_room, store, retrieve, purge,
}
use local_network_ecosystem.Cache.Room.{make_room-done}
use local_network_ecosystem.Cache.Sizes.{
  total, total-put, size_of, IsOver, IsSmall, IsLess, same-IsLess, IsLess-IsSmall, remove-IsLess,
  make_room-IsLess, purge_keys-IsLess,
}

pub data Call : Type 0 where
  stored : ℕ → Bool → String → ℕ → Dict String String → List ℕ → ℤ → Call
  retrieved : ℕ → String → Call
  purged : String → Call

unfoldable pub apply : (String → String) → Call → DiskCache → DiskCache
apply digest (stored now writes key status headers body ttl) c =
    store digest now writes key status headers body ttl c
apply digest (retrieved now key) c = (retrieve digest now key c).0
apply digest (purged key_pattern) c = (purge digest key_pattern c).0

unfoldable pub run : (String → String) → List Call → DiskCache → DiskCache
unfolding apply
run digest [] c = c
run digest (call ∷ calls) c = run digest calls (apply digest call c)

make_room_none :
    (digest : String → String) (n needed : ℕ) (c : DiskCache)
    → needed + c.current_size ≤ c.max_size
    → make_room digest n needed c ≡ c
unfolding make_room
make_room_none digest zero needed c h = refl
make_room_none digest (suc n) needed c h = ground arith

module _ (digest : String → String) where
  retrieve-IsLess :
      (now : ℕ) (key : String) (c : DiskCache) → IsOver c → IsLess c (retrieve digest now key c).0
  unfolding retrieve
  retrieve-IsLess now key c h = elim (Option-cases (Dict.get key c.entries)) [
    | inr (e, at) ↦ elim (Bool-cases (expired now e)) [
      | inl old ↦ rw (at, retrieve) (rw (old, retrieve) (remove-IsLess digest key c h))
      | inr young ↦
          let touched = record e { last_access = now } in
          let same : total (Dict.put key touched c.entries) ≡ total c.entries =
            (let moved = total-put key touched c.entries in ground (arith, at, moved)) in
          let there : Dict.has key c.entries ≡ true = has-eq key c.entries ∙ rw at refl in
          rw (at, retrieve)
            (rw (young, retrieve)
              record {
                over = record {
                  distinct = put-IsDistinct key touched c.entries h.distinct;
                  counted = omega (arith, same, h.counted);
                };
                bytes = omega (arith, same);
                count = ground (arith, length-put key touched c.entries, there);
                limit = refl;
              })
    ]
    | inl missing ↦ ground (arith, missing, same-IsLess c h)
  ]

  store-IsSmall :
      (now : ℕ) (writes : Bool) (key : String) (status : ℕ) (headers : Dict String String)
      (body : List ℕ) (ttl : ℤ) (c : DiskCache)
      → IsOver c
      → let c' = store digest now writes key status headers body ttl c in
        IsOver c' × IsSmall c' × (c'.max_size ≡ c.max_size)
  unfolding store
  store-IsSmall now writes key status headers body ttl c h =
      let room = make_room digest (length c.entries) (length body) c in
      let less = make_room-IsLess digest (length c.entries) (length body) c h in
      let done =
        make_room-done digest (length c.entries) (length body) c h.distinct (omega arith) in
      let e : CacheEntry = record {
        key = key;
        status = status;
        headers = headers;
        body = body;
        ttl = ttl;
        created_at = now;
        last_access = now;
      } in
      let added : total (Dict.put key e room.entries) ≤ total room.entries + length body =
        omega (arith, total-put key e room.entries) in
      elim writes
        as (λ w.
          let c' = store digest now w key status headers body ttl c in
          IsOver c' × IsSmall c' × (c'.max_size ≡ c.max_size)) [
            | false ↦ (
              less.over,
              elim done [
                | inl fits ↦ inl (omega (arith, less.over.counted))
                | inr empty ↦ inr (omega arith)
              ],
              less.limit,
            )
            | true ↦ (
              record {
                distinct = put-IsDistinct key e room.entries less.over.distinct;
                counted = omega (arith, less.over.counted, added);
              },
              elim done [
                | inl fits ↦ inl (omega (arith, less.over.counted, added))
                | inr empty ↦ inr (ground (arith, length-put key e room.entries))
              ],
              less.limit,
            )
          ]

  apply-IsSmall :
      (call : Call) (c : DiskCache)
      → IsOver c
      → IsSmall c
      → IsOver (apply digest call c) × IsSmall (apply digest call c)
  unfolding apply purge
  apply-IsSmall (stored now writes key status headers body ttl) c h small =
      let (over, fits, _) = store-IsSmall now writes key status headers body ttl c h in (over, fits)
  apply-IsSmall (retrieved now key) c h small =
      let less = retrieve-IsLess now key c h in
      (less.over, IsLess-IsSmall c (retrieve digest now key c).0 less small)
  apply-IsSmall (purged key_pattern) c h small =
      let less = purge_keys-IsLess digest key_pattern c.entries c h in
      (less.over, IsLess-IsSmall c (purge digest key_pattern c).0 less small)

  -- After any run of calls the bodies in memory have together no more bytes than the limit, or there is one
  -- entry; no key is there twice, and what the cache counts is never below what is there, if all this holds
  -- at the start.
  pub run-IsSmall :
      (calls : List Call) (c : DiskCache)
      → IsOver c
      → IsSmall c
      → IsOver (run digest calls c) × IsSmall (run digest calls c)
  unfolding run
  run-IsSmall [] c h small = (h, small)
  run-IsSmall (call ∷ calls) c h small =
      let (over, fits) = apply-IsSmall call c h small in
      run-IsSmall calls (apply digest call c) over fits

  -- Where the count is exact, storing leaves it too high by just the size of the entry that it replaces.
  pub store-counted :
      (now : ℕ) (key : String) (status : ℕ) (headers : Dict String String) (body : List ℕ) (ttl : ℤ)
      (c : DiskCache)
      → length body + c.current_size ≤ c.max_size
      → total c.entries ≡ c.current_size
      → let c' = store digest now true key status headers body ttl c in
        c'.current_size ≡ total c'.entries + size_of (Dict.get key c.entries)
  unfolding store
  store-counted now key status headers body ttl c room exact =
      let stays = make_room_none digest (length c.entries) (length body) c room in
      rw stays (omega (arith, total-put key _ c.entries))
