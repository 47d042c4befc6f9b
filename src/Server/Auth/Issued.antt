-- ===== src/Server/Auth/Issued.antt =====
-- What an issued key and an issued token are good for.
use aiss_waf_server.Prelude.{
  ℕ, suc, ◌+◌, ◌*◌, ◌≡◌, refl, ◌∙◌, true, false, ◌&&◌, none, some, List, [], ◌∷◌, ◌++◌, ltb,
  if◌then◌else◌, Bool-cases, inl, inr, arith,
}
use aiss_waf_server.Prelude.Text.{Text, text_eq, text_eq_iff}
use aiss_waf_server.Server.Auth.{
  Claims, Crypto, Settings, ApiKey, granted, refused, hash_api_key, find_key, has_hash, is_expired,
  actor_of, role_of, accept_key, lookup_api_key, is_token, filled, identify, expiry,
  verify_api_key_with_role, create_api_key,
}

module _ (cr : Crypto) (st : Settings) where
  find_key-append :
      (hash : Text) (keys : List ApiKey) (k : ApiKey)
      → text_eq k.key_hash hash && k.active ≡ true
      → has_hash cr st hash keys ≡ false
      → find_key cr st hash (keys ++ (k ∷ [])) ≡ some k
  unfolding find_key has_hash
  find_key-append hash [] k h n = rw h refl
  find_key-append hash (j ∷ keys) k h n = elim (Bool-cases (text_eq j.key_hash hash)) [
    | inl e ↦ ground (arith, n, e)
    | inr e ↦ rw e (find_key-append hash keys k h (ground (arith, n)))
  ]

  lookup-issued :
      (raw : Text) (k : ApiKey) (keys : List ApiKey) (later : ℕ)
      → text_eq raw st.secret_key ≡ false
      → find_key cr st (hash_api_key cr st raw) keys ≡ some k
      → lookup_api_key cr st keys later raw ≡ accept_key cr st raw later (some k)
  unfolding lookup_api_key
  lookup-issued raw k keys later other found = rw (other, found) refl

  is_key-verify :
      st.development ≡ false
      → (keys : List ApiKey) (now c : ℕ) (raw : Text) → is_token cr st (c ∷ raw) ≡ false
      → verify_api_key_with_role cr st keys now (c ∷ raw) ≡ lookup_api_key cr st keys now (c ∷ raw)
  unfolding verify_api_key_with_role identify
  is_key-verify production keys now c raw h = rw (production, h) refl

  -- In production, where no row of the table, active or not, has the hash of a new key, and the key
  -- is not the secret key and does not begin as a token: issued for `d + 1` days to an agent, the key
  -- is stored, and where it is verified it is the agent's with the role of the request until those
  -- days have passed, and is refused after that.
  pub create_api_key-verify :
      st.development ≡ false
      → (c : ℕ) (raw : Text) (a : ℕ) (agent_id : Text) (r : ℕ) (role : Text) (d now later : ℕ)
        (keys : List ApiKey)
      → text_eq (c ∷ raw) st.secret_key ≡ false
      → is_token cr st (c ∷ raw) ≡ false
      → has_hash cr st (hash_api_key cr st (c ∷ raw)) keys ≡ false
      → (stored : List ApiKey) × (create_api_key cr st
            (c ∷ raw)
            (some (a ∷ agent_id))
            (r ∷ role)
            (some (suc d))
            now
            keys
          ≡ some stored)
        × (verify_api_key_with_role cr st stored later (c ∷ raw) ≡ (
            if ltb (now + suc d * 86400) later
            then refused 403
            else granted (a ∷ agent_id, r ∷ role)))
  unfolding create_api_key accept_key is_expired actor_of role_of filled expiry
  create_api_key-verify production c raw a agent_id r role d now later keys other shaped fresh =
      let hash = hash_api_key cr st (c ∷ raw) in
      let k : ApiKey = record {
        key_hash = hash;
        active = true;
        expires_at = some (now + suc d * 86400);
        agent_id = some (a ∷ agent_id);
        role = some (r ∷ role);
      } in
      let self = (text_eq_iff hash hash).1 refl in
      (
        _,
        rw fresh refl,
        is_key-verify production (keys ++ (k ∷ [])) later c raw shaped
            ∙ lookup-issued (c ∷ raw) k (keys ++ (k ∷ [])) later other
                (find_key-append hash keys k (rw self refl) fresh),
      )

  -- The JWT library decodes what it encoded until it expires, and a token begins as JSON does.
  abbrev pub IsJwt : Type 0
  IsJwt =
      ((c : Claims) (now : ℕ)
        → cr.jwt_decode (cr.jwt_encode c) now ≡ (if ltb c.exp now then none else some c))
      × ((c : Claims) → is_token cr st (cr.jwt_encode c) ≡ true)
