-- ===== src/Punch/Tests.antt =====
-- A STUN response, read.
use local_network_ecosystem.Prelude.{ℕ, ◌≡◌, refl, List, [], ◌∷◌, ◌++◌}
use local_network_ecosystem.Punch.Stun.{address, magic_cookie, parse_stun_mapped_address}

abbrev transaction : List ℕ
transaction = 1 ∷ 2 ∷ 3 ∷ 4 ∷ 5 ∷ 6 ∷ 7 ∷ 8 ∷ 9 ∷ 10 ∷ 11 ∷ 12 ∷ []

-- An attribute that is passed over, and then that of 192.168.0.1 and port 80.
abbrev response : List ℕ
response =
    (1 ∷ 1 ∷ 0 ∷ 20 ∷ [])
    ++ magic_cookie
    ++ transaction
    ++ (128 ∷ 34 ∷ 0 ∷ 3 ∷ 97 ∷ 98 ∷ 99 ∷ 0 ∷ [])
    ++ (0 ∷ 32 ∷ 0 ∷ 8 ∷ 0 ∷ 1 ∷ 33 ∷ 66 ∷ 225 ∷ 186 ∷ 164 ∷ 67 ∷ [])

reads_address : parse_stun_mapped_address response transaction ≡ address (192 ∷ 168 ∷ 0 ∷ 1 ∷ []) 80
unfolding parse_stun_mapped_address
reads_address = refl
