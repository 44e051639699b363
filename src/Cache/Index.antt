-- ===== src/Cache/Index.antt =====
-- proxy/cache/metadata.py: MetadataIndex. A file of the cache directory is its path, its size, its time of
-- access and, where it can be read, what stands in its header.
use local_network_ecosystem.Prelude.{
  ℕ, ◌+◌, ◌≡◌, refl, ◌∙◌, sym, subst, String, Bool, true, ◌&&◌, ◌⊎◌, inl, inr, any, Bool-cases,
  nat_eq, Option, none, some, List, [], ◌∷◌, arith, length, string_eq, ◌==◌, eq_iff,
}
use local_network_ecosystem.Dict
use local_network_ecosystem.Dict.{Dict, get-put, get-remove}
use local_network_ecosystem.Registry.{values}
use local_network_ecosystem.Cache.{ℤ, pos}

pub record EntryMeta : Type 0 where
  pub filepath : String
  pub key : String
  pub size : ℕ
  pub status : ℕ
  pub created_at : ℕ
  pub last_access : ℕ
  pub ttl : ℤ

abbrev pub MetadataIndex : Type 0
MetadataIndex = Dict String EntryMeta

unfoldable pub add : ℕ → String → String → ℕ → ℕ → ℤ → MetadataIndex → MetadataIndex
add now key filepath size status ttl = Dict.put key (record {
  filepath = filepath;
  key = key;
  size = size;
  status = status;
  created_at = now;
  last_access = now;
  ttl = ttl;
})

unfoldable pub get : ℕ → String → MetadataIndex → MetadataIndex × Option EntryMeta
get now key index = elim (Dict.get key index) [
  | none ↦ (index, none)
  | some e ↦ let e' = record e { last_access = now } in (Dict.put key e' index, some e')
]

unfoldable pub remove : String → MetadataIndex → MetadataIndex
remove key index = Dict.remove key index

unfoldable pub list_all : MetadataIndex → List EntryMeta
list_all index = values index

unfoldable pub total_size : MetadataIndex → ℕ
total_size [] = 0
total_size ((k, e) ∷ d) = e.size + total_size d

abbrev pub count : MetadataIndex → ℕ
count index = length index

-- The header of a file, as `json` reads it; what it lacks is none.
pub record Header : Type 0 where
  pub key : Option String
  pub status : Option ℕ
  pub created_at : Option ℕ
  pub ttl : Option ℤ

pub record File : Type 0 where
  pub filepath : String
  pub size : ℕ
  pub accessed_at : ℕ
  pub meta : Option Header

abbrev pub or {ℓ} : {A : Type ℓ} → A → Option A → A
or default none = default
or default (some a) = a

-- The entry of a file; none if it cannot be read, or names no key.
unfoldable pub entry_of : File → Option EntryMeta
entry_of f = elim f.meta [
  | none ↦ none
  | some h ↦ elim h.key [
    | none ↦ none
    | some key ↦ some (record {
      filepath = f.filepath;
      key = key;
      size = f.size;
      status = or 200 h.status;
      created_at = or 0 h.created_at;
      last_access = f.accessed_at;
      ttl = or (pos 300) h.ttl;
    })
  ]
]

-- The loop over the files.
unfoldable pub scan : List File → MetadataIndex → MetadataIndex
unfolding entry_of
scan [] index = index
scan (f ∷ files) index =
    scan files (elim (entry_of f) [ none ↦ index | some e ↦ Dict.put e.key e index ])

unfoldable pub rebuild_from_disk : List File → MetadataIndex → MetadataIndex
unfolding scan
rebuild_from_disk files index = scan files []

abbrev pub is_of : EntryMeta → File → Bool
is_of e f = f.filepath == e.filepath && f.size == e.size

entry_of-is_of : (f : File) (m : EntryMeta) → entry_of f ≡ some m → is_of m f ≡ true
unfolding entry_of
entry_of-is_of f m h = ground (arith, eq_iff f.filepath m.filepath)

scan-is_of :
    (k : String) (e : EntryMeta) (files : List File) (index : MetadataIndex)
    → Dict.get k (scan files index) ≡ some e
    → (Dict.get k index ≡ some e) ⊎ (any (is_of e) files ≡ true)
unfolding scan
scan-is_of k e [] index h = inl h
scan-is_of k e (f ∷ files) index h = go (scan-is_of k e files) (entry_of f) refl h
  where
    go :
        ((index : MetadataIndex)
          → Dict.get k (scan files index) ≡ some e
          → (Dict.get k index ≡ some e) ⊎ (any (is_of e) files ≡ true))
        → (v : Option EntryMeta) → entry_of f ≡ v
        → Dict.get k (scan files (elim v [ none ↦ index | some m ↦ Dict.put m.key m index ]))
          ≡ some e
        → (Dict.get k index ≡ some e) ⊎ (any (is_of e) (f ∷ files) ≡ true)
    go later none q h = let rest = later index h in ground arith
    go later (some m) q h =
        let here = entry_of-is_of f m q in
        elim (later (Dict.put m.key m index) h) [
          | inl at ↦
              let view = get-put m.key k m index in
              elim (Bool-cases (m.key == k)) [
                | inl same ↦
                    let it : some m ≡ some e = sym (rw same at view) ∙ at in
                    let m_is : m ≡ e = cc it in
                    let found : is_of e f ≡ true = subst (λ x. is_of x f ≡ true) m_is here in
                    inr (ground arith)
                | inr other ↦ inl (sym (rw other at view) ∙ at)
              ]
          | inr found ↦ inr (ground arith)
        ]

-- What the index holds after a rebuild is of a file that it has read, with its path and its size: no entry
-- from before outlives it.
pub rebuild_from_disk-is_of :
    (k : String) (e : EntryMeta) (files : List File) (index : MetadataIndex)
    → Dict.get k (rebuild_from_disk files index) ≡ some e
    → any (is_of e) files ≡ true
unfolding rebuild_from_disk
rebuild_from_disk-is_of k e files index h = elim (scan-is_of k e files [] h) [
  | inl nothing ↦ absurd (unfold Dict.get in cc nothing)
  | inr found ↦ found
]
