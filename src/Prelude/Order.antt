-- ===== src/Prelude/Order.antt =====
-- Sequences of times: sorted lists of native numbers, and counts within a window.
use Prim.Native.Nat.{ℕ, ◌≤◌}
use mathlib.Core.List.{List, [], ◌∷◌}
use aiss_waf_server.Prelude.Lists.{All}

-- Ascending, repetitions allowed.
abbrev pub IsAscending : List ℕ → Type 0
IsAscending [] = Unit
IsAscending (x ∷ xs) = All (λ y. x ≤ y) xs × IsAscending xs
