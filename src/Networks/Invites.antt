-- ===== src/Networks/Invites.antt =====
-- Invite codes (server/network_manager.py). The ten draws of `random.choices` are the list `draws`,
-- and `fallback` makes the code of last resort from the network's name: its lower-case prefix and
-- the hexadecimal digits of a fresh uuid.
use local_network_ecosystem.Prelude.{
  String, Option, none, some, List, [], ◌∷◌, if◌then◌else◌, take, set_add, string_eq,
}
use local_network_ecosystem.Dict
use local_network_ecosystem.Dict.{Dict}
use local_network_ecosystem.Networks.{
  Bcrypt, NetworkRecord, NetworkManager, Result, ok, value_error, get, is_banned, admit,
  password_fits,
}

-- The first draw that no network has.
unfoldable pub first_free : List String → Dict String String → Option String
first_free [] codes = none
first_free (code ∷ rest) codes =
    let later = first_free rest codes in if Dict.has code codes then later else some code

-- `self._invite_codes[code] = network_id` and the other way round
unfoldable pub set_code : String → String → NetworkManager → NetworkManager
set_code network_id code m = record m {
  invite_codes = Dict.put code network_id m.invite_codes;
  network_invite_codes = Dict.put network_id code m.network_invite_codes;
}

-- The code that a network without one is given.
unfoldable pub new_code :
    List String → (String → String) → NetworkRecord → Dict String String → String
unfolding first_free
new_code draws fallback r codes = elim (first_free (take 10 draws) codes) [
  | none ↦ fallback r.name
  | some code ↦ code
]

unfoldable pub generate_invite_code :
    List String → (String → String) → String → NetworkManager → Result (NetworkManager × String)
unfolding get new_code set_code
generate_invite_code draws fallback network_id m = elim (get m network_id) [
  | none ↦ value_error
  | some r ↦ elim (Dict.get network_id m.network_invite_codes) [
    | some code ↦ ok (m, code)
    | none ↦
        let code = new_code draws fallback r m.invite_codes in ok (set_code network_id code m, code)
  ]
]

unfoldable pub get_invite_code :
    List String
    → (String → String)
    → String
    → NetworkManager
    → Result (NetworkManager × Option String)
unfolding generate_invite_code
get_invite_code draws fallback network_id m =
    if Dict.has network_id m.networks
    then elim (generate_invite_code draws fallback network_id m) [
      | ok (m', code) ↦ ok (m', some code)
      | value_error ↦ value_error
    ]
    else ok (m, none)

module _ (bcrypt : Bcrypt) where
  unfoldable pub join_by_invite_code :
      String → String → String → NetworkManager → NetworkManager × Option NetworkRecord
  unfolding get admit is_banned password_fits
  join_by_invite_code code client_id password m = elim (Dict.get code m.invite_codes) [
    | none ↦ (m, none)
    | some network_id ↦ elim (get m network_id) [
      | none ↦ (m, none)
      | some r ↦
          if is_banned m network_id
          then (m, none)
          else if password_fits bcrypt password r
          then (
            admit network_id r client_id m,
            some (record r { members = set_add client_id r.members }),
          )
          else (m, none)
    ]
  ]
