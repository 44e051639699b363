-- ===== src/AdminSession/Tests.antt =====
-- The theorems on sessions at a concrete console.
use local_network_ecosystem.Prelude.{◌≡◌, refl, String, false, some, List, [], ◌∷◌, string_eq}
use local_network_ecosystem.AdminSession.{Sessions, validate_session, logout}
use local_network_ecosystem.AdminSession.Lifetime.{
  Request, visit, enter, run, validate_session-logout,
}

abbrev sessions : Sessions
sessions = ("t1", 100) ∷ []

abbrev admin : String × String
admin = ("admin", "secret")

abbrev requests : List Request
requests = visit 150 (some "t1") ∷ enter 160 "t2" "admin" "secret" ∷ []

validate_session-logout_example :
    (validate_session 170 (some "t1") (run admin requests (logout (some "t1") sessions))).1 ≡ false
validate_session-logout_example =
    validate_session-logout admin requests 170 "t1" sessions refl (tt, (refl, tt))
