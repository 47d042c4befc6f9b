-- ===== src/Agent/Floats.antt =====
-- IEEE floats, which the language has not: a type with the operations that the program uses, and
-- the order laws of values that are not NaN.
use aiss_waf_server.Prelude.{ℕ, ◌≤◌, ◌≡◌, Bool, true, false, ◌⊎◌, not}
use aiss_waf_server.Prelude.Text.{Text}

pub record Floats : Type 1 where
  pub F : Type 0
  -- the float nearest to n / 100, as the program's literals have it
  pub hundredths : ℕ → F
  pub of_nat : ℕ → F
  pub add : F → F → F
  pub sub : F → F → F
  pub mul : F → F → F
  pub div : F → F → F
  pub log2 : F → F
  -- round(x, n), and the format `{x:.nf}`
  pub round : ℕ → F → F
  pub format : ℕ → F → Text
  -- str(x)
  pub show : F → Text
  -- a <= b
  pub le : F → F → Bool

module _ (fl : Floats) where
  abbrev pub lt : fl.F → fl.F → Bool
  lt a b = not (fl.le b a)

  -- min(a, b)
  abbrev pub minimum : fl.F → fl.F → fl.F
  minimum a b = elim (lt b a) [ true ↦ b | false ↦ a ]

  -- Rounding to the nearest value keeps the order of exact sums; literals keep theirs.
  pub record IsOrdered : Type 0 where
    pub le_refl : (a : fl.F) → fl.le a a ≡ true
    pub le_trans : (a b c : fl.F) → fl.le a b ≡ true → fl.le b c ≡ true → fl.le a c ≡ true
    pub le_total : (a b : fl.F) → (fl.le a b ≡ true) ⊎ (fl.le b a ≡ true)
    pub add_mono :
        (a b c d : fl.F)
        → fl.le a b ≡ true
        → fl.le c d ≡ true
        → fl.le (fl.add a c) (fl.add b d) ≡ true
    pub add-zero : (a : fl.F) → fl.add a (fl.hundredths 0) ≡ a
    pub hundredths_mono : (m n : ℕ) → m ≤ n → fl.le (fl.hundredths m) (fl.hundredths n) ≡ true
