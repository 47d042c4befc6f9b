-- ===== src/RateLimit/History.antt =====
-- The promise of the limiter, stated on the history of admitted calls alone.
use aiss_waf_server.Prelude.{ℕ, ◌+◌, ◌-◌, Bool, ◌&&◌, List, [], ◌∷◌, ltb, leb, if◌then◌else◌}
use aiss_waf_server.Prelude.Text.{Text, text_eq}

-- Admitted calls, the newest first.
abbrev pub History : Type 0
History = List (Text × ℕ)

-- The admitted calls of a key at or after `from`.
abbrev pub count_since : Text → ℕ → History → ℕ
count_since key from [] = 0
count_since key from ((k, t) ∷ h) =
    if text_eq k key && leb from t then 1 + count_since key from h else count_since key from h

-- The admitted calls of a key between `from` and `to`, both included.
abbrev pub count_within : Text → ℕ → ℕ → History → ℕ
count_within key from to [] = 0
count_within key from to ((k, t) ∷ h) =
    if text_eq k key && (leb from t && leb t to)
    then 1 + count_within key from to h
    else count_within key from to h

-- A call is admitted exactly if fewer than `limit` calls of its key were in the last window.
abbrev pub admits : (limit window : ℕ) → History → Text → ℕ → Bool
admits limit window h key now = ltb (count_since key (now - window) h) limit

abbrev pub remember : Bool → Text → ℕ → History → History
remember b key now h = if b then (key, now) ∷ h else h

unfoldable pub spec_run : (limit window : ℕ) → History → List (Text × ℕ) → List Bool × History
spec_run limit window h [] = ([], h)
spec_run limit window h ((key, now) ∷ calls) =
    let b = admits limit window h key now in
    let (bs, h') = spec_run limit window (remember b key now h) calls in (b ∷ bs, h')
