-- ===== src/Server/Bootstrap.antt =====
-- The key that server/app/main.py puts into the table of keys when it starts, `_seed_bootstrap_key`.
mod Tests
use aiss_waf_server.Prelude.{
  ℕ, ◌≡◌, refl, sym, ap, ◌∙◌, ◌⊎◌, Bool, true, false, ◌&&◌, ◌||◌, Option, none, some, List, [], ◌∷◌,
  ◌++◌, Bool-cases, inl, inr, arith, if◌then◌else◌,
}
use aiss_waf_server.Prelude.Text.{Text, codes, text_eq, text_eq_iff}
use aiss_waf_server.Server.Auth.{Crypto, Settings, ApiKey, hash_api_key, find_key}

is_role : Text → Option Text → Bool
is_role role none = false
is_role role (some r) = text_eq r role

unfoldable pub is_admin : ApiKey → Bool
unfolding is_role codes
is_admin k = is_role (codes "admin") k.role && k.active

unfoldable pub has_admin : List ApiKey → Bool
has_admin [] = false
has_admin (k ∷ keys) = is_admin k || has_admin keys

-- The unique constraint of key_hash, over active rows and others.
unfoldable pub has_hash : Text → List ApiKey → Bool
has_hash hash [] = false
has_hash hash (k ∷ keys) = text_eq k.key_hash hash || has_hash hash keys

module _ (cr : Crypto) (st : Settings) where
  abbrev bootstrap_key : ApiKey
  bootstrap_key = record {
    key_hash = hash_api_key cr st st.secret_key;
    active = true;
    expires_at = none;
    agent_id = some (codes "bootstrap-admin");
    role = some (codes "admin");
  }

  -- `none` is the exception of the commit, which ends the start of the server.
  unfoldable pub add_bootstrap : List ApiKey → Option (List ApiKey)
  add_bootstrap keys =
      if has_hash (hash_api_key cr st st.secret_key) keys
      then none
      else some (keys ++ (bootstrap_key ∷ []))

  unfoldable pub seed_in : (development : Bool) → List ApiKey → Option (List ApiKey)
  unfolding add_bootstrap
  seed_in true keys = some keys
  seed_in false keys = if has_admin keys then some keys else add_bootstrap keys

  unfoldable pub seed_bootstrap_key : List ApiKey → Option (List ApiKey)
  unfolding seed_in
  seed_bootstrap_key keys = seed_in st.development keys

has_admin-append :
    (keys : List ApiKey) (k : ApiKey) → is_admin k ≡ true → has_admin (keys ++ (k ∷ [])) ≡ true
unfolding has_admin
has_admin-append [] k h = rw h refl
has_admin-append (j ∷ keys) k h = ground (arith, has_admin-append keys k h)

module _ (cr : Crypto) (st : Settings) where
  -- A start leaves the keys as they are or adds the bootstrap key to them.
  abbrev Starts : List ApiKey → List ApiKey → Type 0
  Starts keys keys' =
      (has_admin keys' ≡ true) × ((keys' ≡ keys) ⊎ (keys' ≡ keys ++ (bootstrap_key cr st ∷ [])))

  add_bootstrap-Starts :
      (keys keys' : List ApiKey) → add_bootstrap cr st keys ≡ some keys' → Starts keys keys'
  unfolding add_bootstrap is_admin is_role codes text_eq
  add_bootstrap-Starts keys keys' h =
      elim (Bool-cases (has_hash (hash_api_key cr st st.secret_key) keys)) [
        | inl e ↦ cc
        | inr e ↦
            let q : keys ++ (bootstrap_key cr st ∷ []) ≡ keys' = ground (arith, e, h) in
            (rw (← q) (has_admin-append keys (bootstrap_key cr st) refl), inr (sym q))
      ]

  seed_in-Starts :
      (keys keys' : List ApiKey) → seed_in cr st false keys ≡ some keys' → Starts keys keys'
  unfolding seed_in
  seed_in-Starts keys keys' = elim (Bool-cases (has_admin keys)) [
    | inl e ↦ rw e (λ h. let q : keys ≡ keys' = ground (arith, h) in (rw (← q) e, inl (sym q)))
    | inr e ↦ rw e (λ h. add_bootstrap-Starts keys keys' h)
  ]

  in_production :
      (keys : List ApiKey)
      → st.development ≡ false
      → seed_bootstrap_key cr st keys ≡ seed_in cr st false keys
  unfolding seed_bootstrap_key
  in_production keys dev = ap (λ b. seed_in cr st b keys) dev

  seed_in-admin :
      (keys : List ApiKey) → has_admin keys ≡ true → seed_in cr st false keys ≡ some keys
  unfolding seed_in
  seed_in-admin keys h = rw h refl

  seed_in-fails :
      (keys : List ApiKey)
      → has_admin keys ≡ false
      → has_hash (hash_api_key cr st st.secret_key) keys ≡ true
      → seed_in cr st false keys ≡ none
  unfolding seed_in add_bootstrap
  seed_in-fails keys a h = ground (arith, a, h)

  -- In production, a start that succeeds leaves an active admin key and every earlier key as it was,
  -- adds at most the bootstrap key, and the next start changes nothing.
  pub seed_bootstrap_key-settled :
      (keys keys' : List ApiKey)
      → st.development ≡ false
      → seed_bootstrap_key cr st keys ≡ some keys'
      → Starts keys keys' × (seed_bootstrap_key cr st keys' ≡ some keys')
  seed_bootstrap_key-settled keys keys' dev h =
      let s = seed_in-Starts keys keys' (sym (in_production keys dev) ∙ h) in
      (s, in_production keys' dev ∙ seed_in-admin keys' s.0)

  -- In production, where the secret key's row is there but no active admin key, the start fails.
  pub seed_bootstrap_key-fails :
      (keys : List ApiKey)
      → st.development ≡ false
      → has_admin keys ≡ false
      → has_hash (hash_api_key cr st st.secret_key) keys ≡ true
      → seed_bootstrap_key cr st keys ≡ none
  seed_bootstrap_key-fails keys dev a h = in_production keys dev ∙ seed_in-fails keys a h
