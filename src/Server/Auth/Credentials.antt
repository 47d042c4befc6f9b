-- ===== src/Server/Auth/Credentials.antt =====
-- Where an accepted credential comes from, and how long it is good.
use mathlib.Core.Path.{subst}
use aiss_waf_server.Prelude.{
  ℕ, ◌≡◌, ◌⊎◌, inl, inr, refl, sym, ap, ◌∙◌, Bool, true, false, ◌&&◌, Option, none, some, List, [],
  ◌∷◌, Bool-cases, In, arith,
}
use aiss_waf_server.Prelude.Text.{Text, codes, text_eq, text_eq_iff, elem}
use aiss_waf_server.Server.Auth.{
  Claims, Crypto, Settings, ApiKey, Result, granted, refused, hash_api_key, find_key, is_expired,
  actor_of, role_of, accept_key, lookup_api_key, accept_token, is_token, identify,
  verify_api_key_with_role, check_role, require_role,
}

both_true : (a b : Bool) → a && b ≡ true → (a ≡ true) × (b ≡ true)
both_true a b h = (ground arith, ground arith)

granted-who : {A : Type 0} {x y : A} → granted x ≡ granted y → y ≡ x
granted-who {A} {x} {y} h = cc

module _ (cr : Crypto) (st : Settings) where
  -- An active row of the key's hash that has not expired, and what it stands for.
  abbrev pub IsBacked : List ApiKey → ℕ → Text → Text × Text → Type 0
  IsBacked keys now raw who =
      (k : ApiKey) × In k keys
      × ((text_eq k.key_hash (hash_api_key cr st raw) ≡ true)
          × ((k.active ≡ true)
              × ((is_expired cr st k.expires_at now ≡ false)
                  × (who ≡ (actor_of cr st raw k, role_of cr st k)))))

  find_key-In :
      (hash : Text) (keys : List ApiKey) (k : ApiKey)
      → find_key cr st hash keys ≡ some k
      → In k keys × ((text_eq k.key_hash hash ≡ true) × (k.active ≡ true))
  unfolding find_key
  find_key-In hash [] k = λ h. ground arith
  find_key-In hash (j ∷ keys) k = elim (Bool-cases (text_eq j.key_hash hash && j.active)) [
    | inl e ↦ rw e (λ h.
        let g : j ≡ k = cc in
        (
          inl g,
          subst (λ x. (text_eq x.key_hash hash ≡ true) × (x.active ≡ true)) g
              (both_true (text_eq j.key_hash hash) j.active e),
        ))
    | inr e ↦ rw e (λ h. (inr (find_key-In hash keys k h).0, (find_key-In hash keys k h).1))
  ]

  accept_key-IsBacked :
      (keys : List ApiKey) (now : ℕ) (raw : Text) (who : Text × Text) (o : Option ApiKey)
      → find_key cr st (hash_api_key cr st raw) keys ≡ o
      → accept_key cr st raw now o ≡ granted who
      → IsBacked keys now raw who
  unfolding accept_key
  accept_key-IsBacked keys now raw who none found = λ h. ground arith
  accept_key-IsBacked keys now raw who (some k) found =
      elim (Bool-cases (is_expired cr st k.expires_at now)) [
        | inl e ↦ rw e (λ h. ground arith)
        | inr e ↦ rw e (λ h.
            let (member, (same, live)) = find_key-In (hash_api_key cr st raw) keys k found in
            (k, member, (same, (live, (e, granted-who h)))))
      ]

  -- The sources of an identity in production: the secret key, a row that backs the key, or a token
  -- that the JWT library accepts now.
  abbrev pub IsGenuine : List ApiKey → ℕ → Text → Text × Text → Type 0
  IsGenuine keys now raw who =
      ((raw ≡ st.secret_key) × (who ≡ (codes "bootstrap-admin", codes "admin")))
      ⊎ (IsBacked keys now raw who
          ⊎ ((c : Claims) × (cr.jwt_decode raw now ≡ some c)
              × (accept_token cr st (some c) ≡ granted who)))

  lookup_api_key-IsGenuine :
      (keys : List ApiKey) (now : ℕ) (raw : Text) (who : Text × Text)
      → lookup_api_key cr st keys now raw ≡ granted who
      → IsGenuine keys now raw who
  unfolding lookup_api_key
  lookup_api_key-IsGenuine keys now raw who = elim (Bool-cases (text_eq raw st.secret_key)) [
    | inl e ↦ rw e (λ h. inl ((text_eq_iff raw st.secret_key).0 e, granted-who h))
    | inr e ↦ rw e (λ h. inr (inl (accept_key-IsBacked keys now raw who _ refl h)))
  ]

  token-IsGenuine :
      (keys : List ApiKey) (now : ℕ) (raw : Text) (who : Text × Text) (o : Option Claims)
      → cr.jwt_decode raw now ≡ o
      → accept_token cr st o ≡ granted who
      → IsGenuine keys now raw who
  unfolding accept_token
  token-IsGenuine keys now raw who none e h = ground arith
  token-IsGenuine keys now raw who (some c) e h = inr (inr (c, e, h))

  identify-IsGenuine :
      (token : Bool) (keys : List ApiKey) (now : ℕ) (raw : Text) (who : Text × Text)
      → identify cr st false token keys now raw ≡ granted who
      → IsGenuine keys now raw who
  unfolding identify
  identify-IsGenuine true keys now raw who h = token-IsGenuine keys now raw who _ refl h
  identify-IsGenuine false keys now raw who h = lookup_api_key-IsGenuine keys now raw who h

  verify_api_key_with_role-IsGenuine :
      st.development ≡ false
      → (keys : List ApiKey) (now : ℕ) (raw : Text) (who : Text × Text)
      → verify_api_key_with_role cr st keys now raw ≡ granted who
      → IsGenuine keys now raw who
  unfolding verify_api_key_with_role
  verify_api_key_with_role-IsGenuine production keys now [] who h = ground arith
  verify_api_key_with_role-IsGenuine production keys now (c ∷ raw) who h =
      let token = is_token cr st (c ∷ raw) in
      identify-IsGenuine token keys now (c ∷ raw) who
        (sym (ap (λ d. identify cr st d token keys now (c ∷ raw)) production) ∙ h)

  check_role-granted :
      (allowed : List Text) (r : Result (Text × Text)) (actor : Text)
      → check_role cr st allowed r ≡ granted actor
      → (role : Text) × (r ≡ granted (actor, role)) × (elem role allowed ≡ true)
  unfolding check_role
  check_role-granted allowed (refused status) actor = λ h. ground arith
  check_role-granted allowed (granted (a, role)) actor = elim (Bool-cases (elem role allowed)) [
    | inl e ↦ rw e (λ h. (role, ap (λ x. granted (x, role)) (sym (granted-who h)), e))
    | inr e ↦ rw e (λ h. ground arith)
  ]

  -- In production, an actor that passes the check of roles has one of the allowed roles by the
  -- secret key, which is an admin, by an active row of the key's hash that has not expired, or by a
  -- token that decodes now.
  pub require_role-IsGenuine :
      st.development ≡ false
      → (allowed : List Text) (keys : List ApiKey) (now : ℕ) (raw actor : Text)
      → require_role cr st allowed keys now raw ≡ granted actor
      → (role : Text) × (elem role allowed ≡ true) × IsGenuine keys now raw (actor, role)
  unfolding require_role
  require_role-IsGenuine production allowed keys now raw actor h =
      let (role, e, m) =
        check_role-granted allowed (verify_api_key_with_role cr st keys now raw) actor h in
      (role, m, verify_api_key_with_role-IsGenuine production keys now raw (actor, role) e)
