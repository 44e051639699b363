-- ===== src/AdminSession.antt =====
-- server/web/auth.py: the sessions of the admin console. `time.time()` is the argument `now`, and the
-- token that `secrets` draws is the argument of create_session.
pub mod Lifetime
mod Tests
use local_network_ecosystem.Prelude.{
  ℕ, ◌+◌, String, Bool, true, false, ◌&&◌, ◌||◌, Option, none, some, List, [], ltb, if◌then◌else◌,
  string_eq, ◌==◌,
}
use text.Mathlib.Text.{starts_with}
use local_network_ecosystem.Dict
use local_network_ecosystem.Dict.{Dict}

abbrev pub session_timeout : ℕ
session_timeout = 3600

-- The module's `_sessions`: when each token was created.
abbrev pub Sessions : Type 0
Sessions = Dict String ℕ

unfoldable pub create_session : ℕ → String → Sessions → Sessions
create_session now token sessions = Dict.put token now sessions

-- `not token or token not in _sessions`, then the age.
unfoldable pub validate_session : ℕ → Option String → Sessions → Sessions × Bool
validate_session now none sessions = (sessions, false)
validate_session now (some token) sessions =
    if token == "" then (sessions, false) else elim (Dict.get token sessions) [
      | none ↦ (sessions, false)
      | some created ↦
          if ltb (created + session_timeout) now
          then (Dict.remove token sessions, false)
          else (sessions, true)
    ]

unfoldable pub destroy_session : String → Sessions → Sessions
destroy_session token sessions = Dict.remove token sessions

-- login_handler: the token that the cookie is set to, if the credentials fit.
unfoldable pub login :
    ℕ → String → String × String → String → String → Sessions → Sessions × Option String
unfolding create_session
login now token admin_credentials username password sessions =
    if username == admin_credentials.0 && password == admin_credentials.1
    then (create_session now token sessions, some token)
    else (sessions, none)

-- logout_handler, by the token of the request's cookie.
unfoldable pub logout : Option String → Sessions → Sessions
unfolding destroy_session
logout none sessions = sessions
logout (some token) sessions = if token == "" then sessions else destroy_session token sessions

-- What the middleware answers: the handler's response, a 401, or the way to the login page.
pub data Answer : Type 0 where
  passed unauthorized to_login : Answer

unfoldable pub auth_middleware : ℕ → String → Option String → Sessions → Sessions × Answer
unfolding validate_session
auth_middleware now path cookie sessions =
    if path == "/login" || starts_with path "/static/"
    then (sessions, passed)
    else let (sessions', valid) = validate_session now cookie sessions in
      (
        sessions',
        if valid then passed else if starts_with path "/api/" then unauthorized else to_login,
      )
