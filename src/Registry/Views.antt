-- ===== src/Registry/Views.antt =====
-- What each write to the registry leaves to read.
use local_network_ecosystem.Prelude.{
  ℕ, ◌≡◌, String, Bool, true, false, Option, none, some, arith, if◌then◌else◌, contains,
  contains-set_add, contains-discard, string_eq, ◌==◌, ◌&&◌, eq_iff,
}
use local_network_ecosystem.Dict.{get-put, get-remove, has-eq}
use local_network_ecosystem.Registry.{
  ClientRecord, ClientRegistry, get, modify, register, new_record, forget, add_network,
  remove_network, networks_for, has,
}

abbrev pub map_option {ℓ} : {A B : Type ℓ} → (A → B) → Option A → Option B
map_option f none = none
map_option f (some a) = some (f a)

pub get-modify :
    (f : ClientRecord → ClientRecord) (k j : String) (reg : ClientRegistry)
    → get (modify f k reg) j ≡ (if k == j then map_option f (get reg k) else get reg j)
unfolding modify
get-modify f k j reg = grind (arith, get-put, eq_iff)

-- The record that register leaves.
abbrev pub registered : ℕ → String → String → Option ClientRecord → ClientRecord
registered now k pem none = new_record now k pem
registered now k pem (some old) = record old { public_key_pem = pem }

pub get-register :
    (now : ℕ) (k pem j : String) (reg : ClientRegistry)
    → get (register now k pem reg).0 j
      ≡ (if k == j then some (registered now k pem (get reg k)) else get reg j)
unfolding register
get-register now k pem j reg = grind (arith, get-put, eq_iff)

get-forget :
    (k j : String) (reg : ClientRegistry)
    → get (forget k reg) j ≡ (if k == j then none else get reg j)
unfolding forget get
get-forget k j reg = get-remove k j reg.clients

-- Whether the registry lists the network for the client.
abbrev pub is_in : ClientRegistry → String → String → Bool
is_in reg client_id network_id = contains network_id (networks_for reg client_id)

abbrev pub is_known : ClientRegistry → String → Bool
is_known reg client_id = elim (get reg client_id) [ none ↦ false | some _ ↦ true ]

pub is_in-add_network :
    (reg : ClientRegistry) (c n d m : String)
    → is_in (add_network c n reg) d m
      ≡ (if c == d && (n == m && is_known reg c) then true else is_in reg d m)
unfolding add_network networks_for contains
is_in-add_network reg c n d m = grind (arith, get-put, eq_iff, contains-set_add)

pub is_in-remove_network :
    (reg : ClientRegistry) (c n d m : String)
    → is_in (remove_network c n reg) d m ≡ (if c == d && n == m then false else is_in reg d m)
unfolding remove_network networks_for contains
is_in-remove_network reg c n d m = grind (arith, get-put, eq_iff, contains-discard)

is_known-add_network :
    (reg : ClientRegistry) (c n d : String) → is_known (add_network c n reg) d ≡ is_known reg d
unfolding add_network
is_known-add_network reg c n d = grind (arith, get-put, eq_iff)

is_known-remove_network :
    (reg : ClientRegistry) (c n d : String) → is_known (remove_network c n reg) d ≡ is_known reg d
unfolding remove_network
is_known-remove_network reg c n d = grind (arith, get-put, eq_iff)

has-is_known : (reg : ClientRegistry) (k : String) → has reg k ≡ is_known reg k
unfolding has get
has-is_known reg k = has-eq k reg.clients
