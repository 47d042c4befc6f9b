-- ===== src/Server/Bootstrap/Tests.antt =====
-- The theorem on the bootstrap key at an empty table.
use aiss_waf_server.Prelude.{◌≡◌, refl, false, none, some, [], ◌∷◌}
use aiss_waf_server.Server.Auth.{Crypto, Settings}
use aiss_waf_server.Server.Bootstrap.{
  Starts, bootstrap_key, has_admin, has_hash, seed_bootstrap_key, seed_bootstrap_key-settled,
}

abbrev crypto : Crypto
crypto = record { hmac_sha256 = λ k p. p; jwt_encode = λ c. []; jwt_decode = λ t now. none }

abbrev settings : Settings
settings = record { secret_key = 5 ∷ []; development = false; access_token_expire_minutes = 30 }

seeded : seed_bootstrap_key crypto settings [] ≡ some (bootstrap_key crypto settings ∷ [])
unfolding seed_bootstrap_key has_admin has_hash
seeded = refl

seed_bootstrap_key-settled_example :
    Starts crypto settings [] (bootstrap_key crypto settings ∷ [])
    × (seed_bootstrap_key crypto settings (bootstrap_key crypto settings ∷ [])
        ≡ some (bootstrap_key crypto settings ∷ []))
seed_bootstrap_key-settled_example =
    seed_bootstrap_key-settled crypto settings [] (bootstrap_key crypto settings ∷ []) refl seeded
