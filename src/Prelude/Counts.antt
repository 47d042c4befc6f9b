-- ===== src/Prelude/Counts.antt =====
-- Counts per key, as SQL's GROUP BY gives them.
use Prim.Native.Nat.{ℕ, suc, ◌+◌}
use mathlib.Core.Path.{◌≡◌}
use mathlib.Core.Bool.{Bool}
use mathlib.Core.List.{List, [], ◌∷◌}
use native.Mathlib.Omega.{arith}
use aiss_waf_server.Prelude.Tests.{if◌then◌else◌, Bool-cases}
use mathlib.Core.Logic.{inl, inr}
use aiss_waf_server.Prelude.Lists.{length}
use aiss_waf_server.Prelude.Dict.{Eq, Dict}

abbrev pub filter {ℓ} : {A : Type ℓ} → (A → Bool) → List A → List A
filter p [] = []
filter p (a ∷ rest) = if p a then a ∷ filter p rest else filter p rest

abbrev pub total {ℓ} : {A : Type ℓ} → (A → ℕ) → List A → ℕ
total f [] = 0
total f (a ∷ rest) = f a + total f rest

module _ {K : Type 0} ⦃e : Eq K⦄ where
  unfoldable pub bump : K → Dict K ℕ → Dict K ℕ
  bump k [] = (k, 1) ∷ []
  bump k ((j, n) ∷ d) = if e.beq j k then (j, suc n) ∷ d else (j, n) ∷ bump k d

  -- The number of elements of each key.
  unfoldable pub count_by : {A : Type 0} → (A → K) → List A → Dict K ℕ
  unfolding bump
  count_by key [] = []
  count_by key (a ∷ rest) = bump (key a) (count_by key rest)

  total-bump : (k : K) (d : Dict K ℕ) → total (λ c. c.1) (bump k d) ≡ suc (total (λ c. c.1) d)
  unfolding bump
  total-bump k [] = omega arith
  total-bump k ((j, n) ∷ d) = elim (Bool-cases (e.beq j k)) [
    | inl q ↦ rw q (omega arith)
    | inr q ↦ rw q (omega (arith, total-bump k d))
  ]

  pub total-count_by :
      {A : Type 0} (key : A → K) (xs : List A) → total (λ c. c.1) (count_by key xs) ≡ length xs
  unfolding count_by
  total-count_by key [] = omega arith
  total-count_by key (x ∷ xs) =
      omega (arith, total-bump (key x) (count_by key xs), total-count_by key xs)

-- ORDER BY, where `before` says that its second argument goes in front of its first.
module _ {A : Type 0} (before : A → A → Bool) where
  unfoldable pub place : A → List A → List A
  place a [] = a ∷ []
  place a (b ∷ rest) = if before a b then b ∷ place a rest else a ∷ b ∷ rest

  unfoldable pub order : List A → List A
  unfolding place
  order [] = []
  order (a ∷ rest) = place a (order rest)

  total-place : (f : A → ℕ) (a : A) (xs : List A) → total f (place a xs) ≡ f a + total f xs
  unfolding place
  total-place f a [] = omega arith
  total-place f a (b ∷ rest) = elim (Bool-cases (before a b)) [
    | inl q ↦ rw q (omega (arith, total-place f a rest))
    | inr q ↦ rw q (omega arith)
  ]

  -- What is added up is the same in any order.
  pub total-order : (f : A → ℕ) (xs : List A) → total f (order xs) ≡ total f xs
  unfolding order
  total-order f [] = omega arith
  total-order f (x ∷ xs) = omega (arith, total-place f x (order xs), total-order f xs)
