-- ===== src/AdminSession/Lifetime.antt =====
-- How long a session lasts.
use local_network_ecosystem.Prelude.{
  ℕ, ◌+◌, ◌≡◌, String, Bool, false, ◌&&◌, Option, none, some, List, [], ◌∷◌, arith, leb,
  if◌then◌else◌, string_eq, ◌==◌, eq_iff, All,
}
use local_network_ecosystem.Dict
use local_network_ecosystem.Dict.{Dict, get-put, get-remove}
use local_network_ecosystem.AdminSession.{
  Sessions, session_timeout, create_session, validate_session, destroy_session, login, logout,
}

-- What other requests do meanwhile: they validate or log out with a cookie, or log in with the token
-- that is drawn for them and with what they type.
pub data Request : Type 0 where
  visit : ℕ → Option String → Request
  leave : Option String → Request
  enter : ℕ → String → String → String → Request

unfoldable pub handle : String × String → Request → Sessions → Sessions
handle admin_credentials (visit now cookie) sessions = (validate_session now cookie sessions).0
handle admin_credentials (leave cookie) sessions = logout cookie sessions
handle admin_credentials (enter now token username password) sessions =
    (login now token admin_credentials username password sessions).0

unfoldable pub run : String × String → List Request → Sessions → Sessions
unfolding handle
run admin_credentials [] sessions = sessions
run admin_credentials (r ∷ rs) sessions =
    run admin_credentials rs (handle admin_credentials r sessions)

-- No login draws this token.
abbrev pub IsOther : String → Request → Type 0
IsOther token (enter now drawn username password) = (drawn == token) ≡ false
IsOther token _ = Unit {0}

abbrev pub is_live : ℕ → Option ℕ → Bool
is_live now none = false
is_live now (some created) = leb now (created + session_timeout)

validate_session_lem :
    (now : ℕ) (token : String) (sessions : Sessions)
    → (token == "") ≡ false
    → (validate_session now (some token) sessions).1 ≡ is_live now (Dict.get token sessions)
unfolding validate_session
validate_session_lem now token sessions h = ground (arith, h)

handle_gone :
    (credentials : String × String) (r : Request) (token : String) (sessions : Sessions)
    → IsOther token r
    → Dict.get token sessions ≡ none
    → Dict.get token (handle credentials r sessions) ≡ none
unfolding handle validate_session logout login create_session destroy_session
handle_gone credentials (visit now none) token sessions other e = e
handle_gone credentials (visit now (some c)) token sessions other e = grind (arith, get-remove, e)
handle_gone credentials (leave none) token sessions other e = e
handle_gone credentials (leave (some c)) token sessions other e = grind (arith, get-remove, e)
handle_gone credentials (enter now drawn username password) token sessions other e =
    grind (arith, get-put, e)

run_gone :
    (credentials : String × String) (rs : List Request) (token : String) (sessions : Sessions)
    → All (IsOther token) rs
    → Dict.get token sessions ≡ none
    → Dict.get token (run credentials rs sessions) ≡ none
unfolding run
run_gone credentials [] token sessions other e = e
run_gone credentials (r ∷ rs) token sessions other e =
    run_gone credentials rs token (handle credentials r sessions) other.1
      (handle_gone credentials r token sessions other.0 e)

-- Once a token, which is not empty, has been logged out, it opens nothing, at any time and whatever
-- requests come between, unless a login draws the same token again.
pub validate_session-logout :
    (credentials : String × String) (rs : List Request) (now : ℕ) (token : String)
    (sessions : Sessions)
    → (token == "") ≡ false
    → All (IsOther token) rs
    → (validate_session now (some token) (run credentials rs (logout (some token) sessions))).1
      ≡ false
validate_session-logout credentials rs now token sessions h other =
    let gone = run_gone credentials rs token (logout (some token) sessions) other (
      unfold logout destroy_session in
      ground (arith, h, get-remove token token sessions, eq_iff token token)) in
    ground (
      arith,
      gone,
      validate_session_lem now token (run credentials rs (logout (some token) sessions)) h,
    )

-- login gives a token exactly for the credentials of the admin. A token given, which is not empty,
-- is then valid for an hour and no longer; where none is given, validity is as before.
pub validate_session-login :
    (now later : ℕ) (token : String) (credentials : String × String) (username password : String)
    (sessions : Sessions)
    → (token == "") ≡ false
    → let (sessions', given) = login now token credentials username password sessions in
      let fits = username == credentials.0 && password == credentials.1 in
      (given ≡ (if fits then some token else none))
      × ((validate_session later (some token) sessions').1 ≡ (
          if fits
          then leb later (now + session_timeout)
          else (validate_session later (some token) sessions).1))
unfolding login create_session
validate_session-login now later token credentials username password sessions h = (
  ground arith,
  ground (
    arith,
    h,
    validate_session_lem later token (Dict.put token now sessions) h,
    get-put token token now sessions,
    eq_iff token token,
  ),
)
