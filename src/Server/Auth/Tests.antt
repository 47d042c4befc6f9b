-- ===== src/Server/Auth/Tests.antt =====
-- The theorems on authentication at concrete keys, with a reversible coding in the place of JWT.
use aiss_waf_server.Prelude.{
  ℕ, zero, suc, ◌+◌, ◌*◌, ◌≡◌, refl, true, false, Option, none, some, List, [], ◌∷◌, ltb,
  if◌then◌else◌,
}
use aiss_waf_server.Prelude.Text.{Text, codes, text_eq, elem, starts_with}
use aiss_waf_server.Server.Auth.{
  Claims, Crypto, Settings, ApiKey, has_hash, granted, refused, lookup_api_key, is_token, identify,
  verify_api_key_with_role, check_role, require_role, create_api_key,
}
use aiss_waf_server.Server.Auth.Credentials.{IsGenuine, require_role-IsGenuine}
use aiss_waf_server.Server.Auth.Issued.{create_api_key-verify}

abbrev put : Text → Text → Text
put [] rest = 0 ∷ rest
put (c ∷ t) rest = 1 ∷ c ∷ put t rest

abbrev get : Text → Text × Text
get [] = ([], [])
get (zero ∷ rest) = ([], rest)
get (suc n ∷ []) = ([], [])
get (suc n ∷ c ∷ s) = (c ∷ (get s).0, (get s).1)

abbrev put_option : Option Text → Text → Text
put_option none rest = 0 ∷ rest
put_option (some t) rest = 1 ∷ put t rest

abbrev get_option : Text → Option Text × Text
get_option [] = (none, [])
get_option (zero ∷ rest) = (none, rest)
get_option (suc n ∷ s) = (some (get s).0, (get s).1)

abbrev encode : Claims → Text
encode c = 101 ∷ 121 ∷ 74 ∷ c.exp ∷ put_option c.sub (put_option c.role [])

abbrev claims_of : ℕ → Option Text × Text → Claims
claims_of exp (sub, rest) = record { sub = sub; role = (get_option rest).0; exp = exp }

abbrev decode : Text → ℕ → Option Claims
decode (a ∷ b ∷ c ∷ exp ∷ s) now = if ltb exp now then none else some (claims_of exp (get_option s))
decode _ now = none

abbrev crypto : Crypto
crypto = record { hmac_sha256 = λ k p. p; jwt_encode = encode; jwt_decode = decode }

abbrev settings : Settings
settings = record { secret_key = 1 ∷ []; development = false; access_token_expire_minutes = 5 }

require_role-IsGenuine_example :
    (role : Text) × (elem role (codes "admin" ∷ []) ≡ true)
    × IsGenuine crypto settings [] 9 (1 ∷ []) (codes "bootstrap-admin", role)
unfolding require_role check_role verify_api_key_with_role identify is_token lookup_api_key text_eq
    elem starts_with codes
require_role-IsGenuine_example =
    require_role-IsGenuine crypto settings refl (codes "admin" ∷ []) [] 9 (1 ∷ [])
      (codes "bootstrap-admin") refl

create_api_key-verify_example :
    (stored : List ApiKey) × (create_api_key crypto settings
        (2 ∷ [])
        (some (3 ∷ []))
        (4 ∷ [])
        (some (suc 0))
        100
        []
      ≡ some stored)
    × (verify_api_key_with_role crypto settings stored 200 (2 ∷ [])
        ≡ (if ltb (100 + suc 0 * 86400) 200 then refused 403 else granted (3 ∷ [], 4 ∷ [])))
unfolding text_eq is_token starts_with codes has_hash
create_api_key-verify_example =
    create_api_key-verify crypto settings refl 2 [] 3 [] 4 [] 0 100 200 [] refl refl refl
