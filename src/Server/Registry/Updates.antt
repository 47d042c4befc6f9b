-- ===== src/Server/Registry/Updates.antt =====
-- The signatures that an agent fetches, server/app/routers/updates.py.
use aiss_waf_server.Prelude.{
  ℕ, ◌≡◌, refl, Bool, true, false, ◌&&◌, Option, none, some, List, [], ◌∷◌, ◌++◌, ltb, ◌==◌, All,
  Bool-cases, inl, inr, arith, if◌then◌else◌,
}
use aiss_waf_server.Prelude.Text.{Text, codes}
use aiss_waf_server.Server.Registry.Defs.{Tables, Reply, refused, answer, touch}

-- A row of cve_signatures as it is sent; `C` is the type of the scores.
pub record Signature (C : Type 0) : Type 0 where
  pub id : Text
  pub cve_id : Text
  pub pattern : Text
  pub severity : Text
  pub cvss : C
  pub affected_product : Text
  pub active : Bool
  pub modified_at : ℕ

-- since.replace("Z", "+00:00")
unfoldable pub replace_z : Text → Text
unfolding codes
replace_z [] = []
replace_z (c ∷ s) = if c == b'Z' then codes "+00:00" ++ replace_z s else c ∷ replace_z s

-- `parse` is datetime.fromisoformat, `none` where it raises.
since_of : (parse : Text → Option ℕ) → Text → Reply (Option ℕ)
unfolding replace_z
since_of parse [] = answer none
since_of parse (c ∷ s) = elim (parse (replace_z (c ∷ s))) [
  | none ↦ refused 400
  | some t ↦ answer (some t)
]

module _ {C : Type 0} where
  -- WHERE active, and modified after the time if there is one
  unfoldable pub is_served : Option ℕ → Signature C → Bool
  is_served none sig = sig.active
  is_served (some since) sig = sig.active && ltb since sig.modified_at

  -- ORDER BY modified_at DESC
  place : Signature C → List (Signature C) → List (Signature C)
  place a [] = a ∷ []
  place a (b ∷ rest) =
      let behind = place a rest in
      if ltb a.modified_at b.modified_at then b ∷ behind else a ∷ b ∷ rest

  keep : Bool → Signature C → List (Signature C) → List (Signature C)
  unfolding place
  keep true sig rest = place sig rest
  keep false sig rest = rest

  unfoldable pub served : Option ℕ → List (Signature C) → List (Signature C)
  unfolding keep is_served
  served since [] = []
  served since (sig ∷ sigs) = keep (is_served since sig) sig (served since sigs)

  unfoldable pub serve :
      {E : Type 0}
      → Reply (Option ℕ)
      → (agent_id : Text) → ℕ
      → List (Signature C)
      → Tables E
      → Reply (List (Signature C)) × Tables E
  unfolding served
  serve (refused status) agent_id now sigs t = (refused status, t)
  serve (answer since) agent_id now sigs t = (answer (served since sigs), touch agent_id now t)

  unfoldable pub get_updates :
      {E : Type 0}
      → (parse : Text → Option ℕ) (since agent_id : Text) → ℕ
      → List (Signature C)
      → Tables E
      → Reply (List (Signature C)) × Tables E
  unfolding serve since_of
  get_updates parse since = serve (since_of parse since)

  place-All :
      (P : Signature C → Type 0) (a : Signature C) (sigs : List (Signature C))
      → P a
      → All P sigs
      → All P (place a sigs)
  unfolding place
  place-All P a [] h hs = (h, tt)
  place-All P a (b ∷ sigs) h (k, ks) = elim (Bool-cases (ltb a.modified_at b.modified_at)) [
    | inl e ↦ rw e (k, place-All P a sigs h ks)
    | inr e ↦ rw e (h, (k, ks))
  ]

  keep-All :
      (P : Signature C → Type 0) (b : Bool) (sig : Signature C) (rest : List (Signature C))
      → (b ≡ true → P sig)
      → All P rest
      → All P (keep b sig rest)
  unfolding keep
  keep-All P true sig rest f hs = place-All P sig rest (f refl) hs
  keep-All P false sig rest f hs = hs

  is_served-active :
      (since : Option ℕ) (sig : Signature C) → is_served since sig ≡ true → sig.active ≡ true
  unfolding is_served
  is_served-active none sig h = h
  is_served-active (some t) sig h = ground (arith, h)

  -- Only active signatures are served: one that was deactivated since is not among them, so that an
  -- agent does not learn of it.
  pub served-active :
      (since : Option ℕ) (sigs : List (Signature C))
      → All (λ s. s.active ≡ true) (served since sigs)
  unfolding served
  served-active since [] = tt
  served-active since (sig ∷ sigs) =
      keep-All (λ s. s.active ≡ true) (is_served since sig) sig (served since sigs)
        (is_served-active since sig) (served-active since sigs)
