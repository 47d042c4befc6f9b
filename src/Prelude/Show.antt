-- ===== src/Prelude/Show.antt =====
-- Python's `str` of a natural number.
use Prim.Native.Nat.{ℕ, zero, suc, ◌+◌, ◌/◌, ◌%◌}
use mathlib.Core.List.{[], ◌∷◌, ◌++◌}
use aiss_waf_server.Prelude.Tests.{ltb, if◌then◌else◌}
use aiss_waf_server.Prelude.Text.{Text}

-- Each round divides by ten, so `n + 1` rounds are enough for `n`.
show_rounds : ℕ → ℕ → Text
show_rounds zero n = []
show_rounds (suc f) n =
    let front = show_rounds f (n / 10) in
    if ltb n 10 then (b'0' + n) ∷ [] else front ++ ((b'0' + n % 10) ∷ [])

unfoldable pub show : ℕ → Text
unfolding show_rounds
show n = show_rounds (suc n) n
