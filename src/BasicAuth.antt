-- ===== src/BasicAuth.antt =====
-- proxy/security/auth.py: BasicAuth, the users of an htpasswd file and those that are set with their
-- password. What the packages do is the parameter `Library`; a file is the list of its lines.
pub mod Users
mod Tests
use text.Mathlib.Text.{starts_with}
use Prim.Native.Char.{Char, code}
use local_network_ecosystem.Prelude.{
  ℕ, zero, suc, String, Bool, true, false, not, ◌||◌, Option, none, some, List, [], ◌∷◌, ◌++◌,
  if◌then◌else◌, string_eq, nat_eq, ◌==◌,
}
use local_network_ecosystem.Dict
use local_network_ecosystem.Dict.{Dict}
use local_network_ecosystem.Protocol.{codes}

pub record Library : Type 0 where
  -- `str.strip`
  pub strip : String → String
  -- `base64.b64decode` and then UTF-8; none where one of them raises ValueError
  pub b64decode : String → Option String
  -- bcrypt.checkpw of a password and a hash; none where it raises ValueError or bcrypt is not installed
  pub checkpw : String → String → Option Bool

pub record BasicAuth : Type 0 where
  pub realm : String
  pub users : Dict String String
  pub plain_users : Dict String String

abbrev longer : Char → Option (String × String) → Option (String × String)
longer c none = none
longer c (some (before, behind)) = some (String.◌∷◌ c before, behind)

-- `line.partition(":")`, or none where there is no colon.
unfoldable pub partition : String → Option (String × String)
partition String.[] = none
partition (String.◌∷◌ c s) =
    let rest = longer c (partition s) in if code c == 58 then some ("", s) else rest

-- text[n:]
unfoldable pub dropped : ℕ → String → String
dropped zero s = s
dropped (suc n) String.[] = ""
dropped (suc n) (String.◌∷◌ c s) = dropped n s

abbrev pub is_true : Option Bool → Bool
is_true none = false
is_true (some b) = b

-- The user and the hash of a line.
unfoldable pub entry : String → Option (String × String)
unfolding partition
entry line = if line == "" || starts_with line "#" then none else partition line

unfoldable pub set_user : String → String → BasicAuth → BasicAuth
set_user username password auth = record auth {
  plain_users = Dict.put username password auth.plain_users;
}

-- The text as its code points.
unfoldable pub authenticate_header : BasicAuth → List ℕ
authenticate_header auth = codes "Basic realm=\"" ++ codes auth.realm ++ codes "\""

module _ (library : Library) where
  unfoldable pub load_htpasswd : List String → BasicAuth → BasicAuth
  unfolding entry
  load_htpasswd [] auth = auth
  load_htpasswd (line ∷ lines) auth = elim (entry (library.strip line)) [
    | none ↦ load_htpasswd lines auth
    | some (user, pwd_hash) ↦
        load_htpasswd lines (record auth { users = Dict.put user pwd_hash auth.users })
  ]

  -- A user who is set comes before one of the file.
  unfoldable pub check_user : String → String → BasicAuth → Bool
  check_user username password auth = elim (Dict.get username auth.plain_users) [
    | some expected ↦ expected == password
    | none ↦ elim (Dict.get username auth.users) [
      | none ↦ false
      | some pwd_hash ↦ is_true (library.checkpw password pwd_hash)
    ]
  ]

  unfoldable pub credentials : String → Option (String × String)
  unfolding dropped partition
  credentials header = elim (library.b64decode (dropped 6 header)) [
    | none ↦ none
    | some decoded ↦ partition decoded
  ]

  unfoldable pub check : Option String → BasicAuth → Bool
  unfolding check_user credentials
  check none auth = false
  check (some header) auth =
      if header == "" || not (starts_with header "Basic ")
      then false
      else elim (credentials header) [
        | none ↦ false
        | some (username, password) ↦ check_user username password auth
      ]
