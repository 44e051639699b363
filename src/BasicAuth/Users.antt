-- ===== src/BasicAuth/Users.antt =====
-- Who passes the check.
use local_network_ecosystem.Prelude.{
  ◌≡◌, refl, String, List, [], ◌∷◌, if◌then◌else◌, string_eq, ◌==◌, Bool-cases, Option-cases, inl,
  inr,
}
use local_network_ecosystem.Dict
use local_network_ecosystem.Dict.{get-put}
use local_network_ecosystem.BasicAuth.{
  Library, BasicAuth, set_user, check_user, load_htpasswd, entry,
}

module _ (library : Library) where
  -- Once a user is set, exactly the password that was set is accepted for this user, whatever the file
  -- says of it, and the others pass or fail as before.
  pub check_user-set_user :
      (username password other given : String) (auth : BasicAuth)
      → check_user library other given (set_user username password auth)
        ≡ (if username == other then password == given else check_user library other given auth)
  unfolding check_user set_user
  check_user-set_user username password other given auth =
      let view = get-put username other password auth.plain_users in
      elim (Bool-cases (username == other)) [
        | inl same ↦ rw (view, check_user) (rw same refl)
        | inr apart ↦ rw (view, check_user) (rw apart refl)
      ]

  -- Reading a file leaves the users that are set alone.
  pub load_htpasswd-plain_users :
      (lines : List String) (auth : BasicAuth)
      → (load_htpasswd library lines auth).plain_users ≡ auth.plain_users
  unfolding load_htpasswd
  load_htpasswd-plain_users [] auth = refl
  load_htpasswd-plain_users (line ∷ lines) auth = elim (Option-cases (entry (library.strip line))) [
    | inl e ↦ rw (e, load_htpasswd) (load_htpasswd-plain_users lines auth)
    | inr ((user, pwd_hash), e) ↦
        rw (e, load_htpasswd)
          (load_htpasswd-plain_users lines
            (record auth { users = Dict.put user pwd_hash auth.users }))
  ]
