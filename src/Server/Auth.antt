-- ===== src/Server/Auth.antt =====
-- Authentication, server/app/auth.py and server/app/routers/auth.py: API keys, tokens and roles.
-- Times are in seconds.
pub mod Credentials
pub mod Issued
pub mod Keys
mod Tests
use aiss_waf_server.Prelude.{
  ℕ, zero, suc, ◌+◌, ◌*◌, Bool, true, false, ◌&&◌, ◌||◌, Option, none, some, List, [], ◌∷◌, ◌++◌,
  take, ltb, ◌==◌, length, is_empty, if◌then◌else◌,
}
use aiss_waf_server.Prelude.Text.{Text, codes, text_eq, elem, starts_with, lower, or_else, is_space}

-- What is called of other libraries: HMAC-SHA256 in hexadecimal, and the encoding and decoding of
-- a JWT under the server's key and algorithm; decoding is at a time, and `none` is JWTError.
pub record Claims : Type 0 where
  pub sub : Option Text
  pub role : Option Text
  pub exp : ℕ

pub record Crypto : Type 0 where
  pub hmac_sha256 : Text → Text → Text
  pub jwt_encode : Claims → Text
  pub jwt_decode : Text → (now : ℕ) → Option Claims

pub record Settings : Type 0 where
  pub secret_key : Text
  pub development : Bool
  pub access_token_expire_minutes : ℕ

-- A row of the table of keys.
pub record ApiKey : Type 0 where
  pub key_hash : Text
  pub active : Bool
  pub expires_at : Option ℕ
  pub agent_id : Option Text
  pub role : Option Text

-- What a dependency gives, or the status of its HTTPException.
pub data Result {ℓ} (A : Type ℓ) : Type ℓ where
  granted : A → Result A
  refused : (status : ℕ) → Result A

-- s.split(): the words between blanks.
push_word : Text → List Text → List Text
push_word [] words = words
push_word (c ∷ w) words = (c ∷ w) ∷ words

-- The word that a text begins with, which is empty before a blank, and the words after it.
words_onto : Text → Text × List Text
unfolding push_word
words_onto [] = ([], [])
words_onto (c ∷ s) =
    let (word, words) = words_onto s in
    if is_space c then ([], push_word word words) else (c ∷ word, words)

unfoldable pub words : Text → List Text
unfolding words_onto
words s = let (word, rest) = words_onto s in push_word word rest

pub extract_bearer : Option Text → Option Text
unfolding words codes
extract_bearer none = none
extract_bearer (some header) = elim (words header) [
  | scheme ∷ token ∷ [] ↦ if text_eq (lower scheme) (codes "bearer") then some token else none
  | _ ↦ none
]

-- x_api_key or _extract_bearer(authorization), the empty text where there is neither
pub credential : Option Text → Option Text → Text
unfolding extract_bearer
credential x_api_key authorization =
    or_else (elim x_api_key [ none ↦ [] | some k ↦ k ])
      (elim (extract_bearer authorization) [ none ↦ [] | some t ↦ t ])

module _ (cr : Crypto) (st : Settings) where
  pub hash_api_key : Text → Text
  hash_api_key raw = cr.hmac_sha256 st.secret_key raw

  -- The first active row of the hash.
  pub find_key : Text → List ApiKey → Option ApiKey
  find_key hash [] = none
  find_key hash (k ∷ keys) =
      if text_eq k.key_hash hash && k.active then some k else find_key hash keys

  pub is_expired : Option ℕ → ℕ → Bool
  is_expired none now = false
  is_expired (some at) now = ltb at now

  filled : Text → Option Text → Text
  filled default none = default
  filled default (some t) = or_else t default

  pub actor_of : Text → ApiKey → Text
  unfolding filled codes
  actor_of raw k = filled (take 12 raw ++ codes "...") k.agent_id

  pub role_of : ApiKey → Text
  unfolding filled codes
  role_of k = filled (codes "agent") k.role

  pub accept_key : Text → (now : ℕ) → Option ApiKey → Result (Text × Text)
  unfolding is_expired
  accept_key raw now none = refused 403
  accept_key raw now (some k) =
      if is_expired k.expires_at now then refused 403 else granted (actor_of raw k, role_of k)

  pub lookup_api_key : List ApiKey → (now : ℕ) → Text → Result (Text × Text)
  unfolding accept_key find_key hash_api_key codes
  lookup_api_key keys now raw =
      if text_eq raw st.secret_key
      then granted (codes "bootstrap-admin", codes "admin")
      else accept_key raw now (find_key (hash_api_key raw) keys)

  -- `none` or 0 minutes are the default of the settings.
  lifetime : Option ℕ → ℕ
  lifetime none = st.access_token_expire_minutes
  lifetime (some m) = if m == 0 then st.access_token_expire_minutes else m

  pub create_access_token : Text → Text → Option ℕ → (now : ℕ) → Text
  unfolding lifetime
  create_access_token subject role expires_minutes now =
      cr.jwt_encode
        (record { sub = some subject; role = some role; exp = now + lifetime expires_minutes * 60 })

  claim_or : Text → Option Text → Text
  claim_or default none = default
  claim_or default (some t) = t

  pub accept_token : Option Claims → Result (Text × Text)
  unfolding claim_or codes
  accept_token none = refused 401
  accept_token (some c) =
      granted (claim_or (codes "unknown") c.sub, claim_or (codes "viewer") c.role)

  pub is_token : Text → Bool
  unfolding codes
  is_token raw = starts_with raw (codes "eyJ")

  -- The branches of `verify_api_key_with_role`, once there is a credential.
  pub identify : (development token : Bool) → List ApiKey → (now : ℕ) → Text → Result (Text × Text)
  unfolding accept_token codes
  identify true token keys now raw = granted (raw, codes "admin")
  identify false true keys now raw = accept_token (cr.jwt_decode raw now)
  identify false false keys now raw = lookup_api_key keys now raw

  -- `verify_api_key_with_role` on the credential of the two headers; `verify_api_key` is its actor.
  pub verify_api_key_with_role : List ApiKey → (now : ℕ) → Text → Result (Text × Text)
  unfolding identify is_token
  verify_api_key_with_role keys now [] = refused 401
  verify_api_key_with_role keys now (c ∷ raw) =
      identify st.development (is_token (c ∷ raw)) keys now (c ∷ raw)

  pub check_role : List Text → Result (Text × Text) → Result Text
  check_role allowed (refused status) = refused status
  check_role allowed (granted (actor, role)) =
      if elem role allowed then granted actor else refused 403

  pub require_role : List Text → List ApiKey → (now : ℕ) → Text → Result Text
  unfolding check_role
  require_role allowed keys now raw = check_role allowed (verify_api_key_with_role keys now raw)

  expiry : (expires_in_days : Option ℕ) → (now : ℕ) → Option ℕ
  expiry none now = none
  expiry (some zero) now = none
  expiry (some (suc d)) now = some (now + suc d * 86400)

  pub has_hash : Text → List ApiKey → Bool
  has_hash hash [] = false
  has_hash hash (k ∷ keys) = text_eq k.key_hash hash || has_hash hash keys

  -- POST /keys: the key is the random text; the role has passed the pattern of the schema. `none` is
  -- the commit that fails, where the hash is in the table, in an active row or not.
  pub create_api_key :
      (raw : Text) (agent_id : Option Text) (role : Text) (expires_in_days : Option ℕ) (now : ℕ)
      → List ApiKey
      → Option (List ApiKey)
  unfolding expiry has_hash
  create_api_key raw agent_id role expires_in_days now keys =
      if has_hash (hash_api_key raw) keys
      then none
      else some (
          keys
          ++ (record {
            key_hash = hash_api_key raw;
            active = true;
            expires_at = expiry expires_in_days now;
            agent_id = agent_id;
            role = some role;
          }
              ∷ []))

  issue : (now : ℕ) → Option (Text × Text) → Option (Text × Text)
  issue now none = none
  issue now (some (actor, role)) =
      some (create_access_token actor role (some st.access_token_expire_minutes) now, role)

  -- Whose key it is; `none` where `_lookup_api_key` waits for the database's lock, which the request
  -- holds itself by `get_db`, and so for good.
  key_identity : (development secret : Bool) → Text → Option (Text × Text)
  unfolding codes
  key_identity true secret raw = some (or_else (take 20 raw) (codes "dev-actor"), codes "admin")
  key_identity false true raw = some (codes "bootstrap-admin", codes "admin")
  key_identity false false raw = none

  -- POST /token: the token and its role, `none` where there is never an answer.
  pub exchange_for_token : (now : ℕ) → Text → Option (Text × Text)
  unfolding issue key_identity
  exchange_for_token now raw =
      issue now (key_identity st.development (text_eq raw st.secret_key) raw)
