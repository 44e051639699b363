-- ===== src/BasicAuth/Tests.antt =====
-- The check of headers, with a decoding that knows one text.
use local_network_ecosystem.Prelude.{
  ◌≡◌, refl, true, false, none, some, [], ◌∷◌, if◌then◌else◌, string_eq, ◌==◌,
}
use local_network_ecosystem.Dict
use local_network_ecosystem.BasicAuth.{Library, BasicAuth, set_user, load_htpasswd, check}

abbrev one_text : Library
one_text = record {
  strip = λ s. s;
  b64decode = λ s. if s == "YW5uOmE6Yg==" then some "ann:a:b" else none;
  checkpw = λ password pwd_hash. some (pwd_hash == "hash");
}

abbrev nobody : BasicAuth
nobody = record { realm = "Restricted"; users = []; plain_users = [] }

-- A password may hold a colon.
passes : check one_text (some "Basic YW5uOmE6Yg==") (set_user "ann" "a:b" nobody) ≡ true
unfolding check set_user Dict.get Dict.put
passes = refl

passes_file :
    check one_text
      (some "Basic YW5uOmE6Yg==")
      (load_htpasswd one_text ("# users" ∷ "ann:hash" ∷ []) nobody)
    ≡ true
unfolding check load_htpasswd Dict.get Dict.put
passes_file = refl

set_user_first :
    check one_text
      (some "Basic YW5uOmE6Yg==")
      (set_user "ann" "other" (load_htpasswd one_text ("ann:hash" ∷ []) nobody))
    ≡ false
unfolding check load_htpasswd set_user Dict.get Dict.put
set_user_first = refl
