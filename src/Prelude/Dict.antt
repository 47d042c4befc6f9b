-- ===== src/Prelude/Dict.antt =====
-- Python's `dict`, as an association list in insertion order, over any keys with an equality test.
use Prim.Native.Nat.{ℕ}
use Prim.Native.String.{String}
use mathlib.Core.Path.{◌≡◌, refl}
use mathlib.Core.Logic.{◌↔◌, inl, inr}
use mathlib.Core.Bool.{Bool, true}
use mathlib.Core.Option.{Option, none, some}
use mathlib.Core.List.{List, [], ◌∷◌}
use native.Mathlib.Omega.{arith}
use text.Mathlib.Text.{◌==◌}
use text.Mathlib.TextEquality.{eq_iff}
use aiss_waf_server.Prelude.Tests.{if◌then◌else◌, ==_iff, Bool-cases}
use aiss_waf_server.Prelude.Lists.{All}
use aiss_waf_server.Prelude.Tests.{◌==◌ as nat_eq}
use aiss_waf_server.Prelude.Text.{Text, text_eq, text_eq_iff}

pub record Eq {ℓ} (A : Type ℓ) : Type ℓ where
  pub beq : A → A → Bool
  pub beq_iff : (a b : A) → (beq a b ≡ true) ↔ (a ≡ b)

instance abbrev pub string_eq : Eq String
string_eq = record { beq = ◌==◌; beq_iff = eq_iff }

instance abbrev pub text_keys : Eq Text
text_keys = record { beq = text_eq; beq_iff = text_eq_iff }

instance abbrev pub nat_keys : Eq ℕ
nat_keys = record { beq = nat_eq; beq_iff = ==_iff }

abbrev pub Dict {ℓ κ} : Type ℓ → Type κ → Type (ℓ ⊔ κ)
Dict K V = List (K × V)

module _ {ℓ κ} {K : Type ℓ} {V : Type κ} ⦃e : Eq K⦄ where
  -- d.get(k)
  unfoldable pub lookup : K → Dict K V → Option V
  lookup k [] = none
  lookup k ((j, v) ∷ d) = if e.beq j k then some v else lookup k d

  -- d[k] = v
  unfoldable pub insert : K → V → Dict K V → Dict K V
  insert k v [] = (k, v) ∷ []
  insert k v ((j, w) ∷ d) = if e.beq j k then (j, v) ∷ d else (j, w) ∷ insert k v d

  pub lookup-insert :
      (k j : K) (v : V) (d : Dict K V)
      → lookup j (insert k v d) ≡ (if e.beq k j then some v else lookup j d)
  unfolding lookup insert
  lookup-insert k j v [] = refl
  lookup-insert k j v ((i, w) ∷ d) =
      ground (arith, e.beq_iff k j, e.beq_iff i k, e.beq_iff i j, lookup-insert k j v d)

  -- del d[k], where the key may be missing or stand for several rows
  unfoldable pub delete : K → Dict K V → Dict K V
  delete k [] = []
  delete k ((j, v) ∷ d) = let rest = delete k d in if e.beq j k then rest else (j, v) ∷ rest

  pub lookup-delete :
      (k j : K) (d : Dict K V) → lookup j (delete k d) ≡ (if e.beq k j then none else lookup j d)
  unfolding lookup delete
  lookup-delete k j [] = ground arith
  lookup-delete k j ((i, w) ∷ d) =
      ground (arith, e.beq_iff k j, e.beq_iff i k, e.beq_iff i j, lookup-delete k j d)

  -- d.get(k, default)
  abbrev pub get_or : K → V → Dict K V → V
  get_or k v d = elim (lookup k d) [ none ↦ v | some w ↦ w ]

-- A property of every value.
abbrev pub AllValues {ℓ κ μ} : {K : Type ℓ} {V : Type κ} → (V → Type μ) → Dict K V → Type μ
AllValues P d = All (λ entry. P entry.1) d

-- The property of a value that is found.
abbrev pub Holds {κ μ} : {V : Type κ} → (V → Type μ) → Option V → Type μ
Holds P none = Unit
Holds P (some v) = P v

module _ {ℓ κ μ} {K : Type ℓ} {V : Type κ} ⦃e : Eq K⦄ (P : V → Type μ) where
  pub insert-AllValues :
      (k : K) (v : V) (d : Dict K V) → P v → AllValues P d → AllValues P (insert k v d)
  unfolding insert
  insert-AllValues k v [] h hs = (h, tt)
  insert-AllValues k v ((j, w) ∷ d) h (p, ps) = elim (Bool-cases (e.beq j k)) [
    | inl q ↦ rw q (h, ps)
    | inr q ↦ rw q (p, insert-AllValues k v d h ps)
  ]

  pub delete-AllValues : (k : K) (d : Dict K V) → AllValues P d → AllValues P (delete k d)
  unfolding delete
  delete-AllValues k [] hs = tt
  delete-AllValues k ((j, w) ∷ d) (p, ps) = elim (Bool-cases (e.beq j k)) [
    | inl q ↦ rw q (delete-AllValues k d ps)
    | inr q ↦ rw q (p, delete-AllValues k d ps)
  ]

  pub lookup-AllValues : (k : K) (d : Dict K V) → AllValues P d → Holds P (lookup k d)
  unfolding lookup
  lookup-AllValues k [] hs = tt
  lookup-AllValues k ((j, w) ∷ d) (p, ps) = elim (Bool-cases (e.beq j k)) [
    | inl q ↦ rw q p
    | inr q ↦ rw q (lookup-AllValues k d ps)
  ]
