-- ===== src/Prelude/Int.antt =====
-- Python's int(s) on a text.
use Prim.Native.Nat.{ℕ, ◌+◌, ◌-◌, ◌*◌, suc, zero}
use mathlib.Core.Bool.{Bool, true, false, ◌&&◌}
use mathlib.Core.Option.{Option, none, some}
use mathlib.Core.List.{[], ◌∷◌}
use aiss_waf_server.Prelude.Tests.{leb, ◌==◌, if◌then◌else◌}
use aiss_waf_server.Prelude.Text.{Text, is_space, lstrip}

-- `negsuc n` is -(n + 1).
pub data ℤ : Type 0 where
  pos : ℕ → ℤ
  negsuc : ℕ → ℤ

abbrev pub negative : ℕ → ℤ
negative zero = pos 0
negative (suc n) = negsuc n

unfoldable pub is_digit : ℕ → Bool
is_digit c = leb b'0' c && leb c b'9'

unfoldable pub all_space : Text → Bool
unfolding is_space
all_space [] = true
all_space (c ∷ s) = is_space c && all_space s

-- The digits after some; an underscore stands between two digits.
unfoldable pub digits_onto : (afresh : Bool) → ℕ → Text → Option ℕ
unfolding is_digit all_space
digits_onto true n [] = none
digits_onto false n [] = some n
digits_onto afresh n (c ∷ s) =
    let more = digits_onto false (n * 10 + (c - b'0')) s in
    let after_underscore = digits_onto true n s in
    if is_digit c
    then more
    else if afresh
    then none
    else if c == b'_'
    then after_underscore
    else if all_space (c ∷ s)
    then some n
    else none

unfoldable pub signed : Text → Option ℤ
unfolding digits_onto
signed [] = none
signed (c ∷ s) =
    if c == b'-'
    then (elim (digits_onto true 0 s) [ none ↦ none | some n ↦ some (negative n) ])
    else if c == b'+'
    then (elim (digits_onto true 0 s) [ none ↦ none | some n ↦ some (pos n) ])
    else (elim (digits_onto true 0 (c ∷ s)) [ none ↦ none | some n ↦ some (pos n) ])

unfoldable pub int_of : Text → Option ℤ
unfolding signed
int_of s = signed (lstrip s)
