-- ===== src/RateLimit/Window.antt =====
-- No window holds more admitted calls of one key than the limit.
use aiss_waf_server.Prelude.{
  ℕ, ◌+◌, ◌-◌, ◌≤◌, ◌<◌, ◌≡◌, Bool, true, false, List, [], ◌∷◌, arith, ltb→lt, sym, refl,
}
use aiss_waf_server.Prelude.Text.{Text, text_eq_iff}
use aiss_waf_server.RateLimit.{Limiter, new_limiter, is_allowed}
use aiss_waf_server.RateLimit.History.{History, count_since, count_within, admits, remember}
use aiss_waf_server.RateLimit.Queue.{Tracks}
use aiss_waf_server.RateLimit.Refines.{
  HasParameters, is_allowed-HasParameters, is_allowed-admits_at, Tracks-is_allowed, Tracks-later,
  Tracks-new, AreLater,
}

-- The calls that a limiter admits, in front of those admitted before.
unfoldable pub admitted : Limiter → History → List (Text × ℕ) → History
admitted l h [] = h
admitted l h ((key, now) ∷ calls) =
    admitted (is_allowed l key now).1 (remember (is_allowed l key now).0.0 key now h) calls

-- Each admitted call had fewer than `limit` of its key before it in its window.
abbrev IsLimited : (limit window : ℕ) → History → Type 0
IsLimited limit window [] = Unit
IsLimited limit window ((k, t) ∷ h) =
    (count_since k (t - window) h < limit) × IsLimited limit window h

remember-IsLimited :
    (limit window now : ℕ) (key : Text) (h : History) (b : Bool)
    → b ≡ admits limit window h key now
    → IsLimited limit window h
    → IsLimited limit window (remember b key now h)
remember-IsLimited limit window now key h true e p = (ltb→lt _ _ (sym e), p)
remember-IsLimited limit window now key h false e p = p

admitted-IsLimited :
    (limit window : ℕ) (l : Limiter) (last : ℕ) (h : History) (calls : List (Text × ℕ))
    → HasParameters limit window l
    → Tracks l last h
    → AreLater last calls
    → IsLimited limit window h
    → IsLimited limit window (admitted l h calls)
unfolding admitted
admitted-IsLimited limit window l last h [] same t later p = p
admitted-IsLimited limit window l last h ((key, now) ∷ calls) same t (le, later) p =
    let t' = Tracks-later l last now h le t in
    let b = (is_allowed l key now).0.0 in
    admitted-IsLimited limit window (is_allowed l key now).1 now (remember b key now h) calls
      (is_allowed-HasParameters limit window l key now same) (Tracks-is_allowed l now h key t')
      later
      (remember-IsLimited limit window now key h b
        (is_allowed-admits_at limit window l now h key same t') p)

count_within-le-count_since :
    (key : Text) (from a to : ℕ) (h : History)
    → from ≤ a
    → count_within key a to h ≤ count_since key from h
count_within-le-count_since key from a to [] le = omega arith
count_within-le-count_since key from a to ((k, t) ∷ h) le =
    ground (arith, count_within-le-count_since key from a to h le)

count_within-le :
    (limit window a : ℕ) (key : Text) (h : History)
    → IsLimited limit window h
    → count_within key a (a + window) h ≤ limit
count_within-le limit window a key [] p = omega arith
count_within-le limit window a key ((k, t) ∷ h) (few, p) = ground (
  arith,
  count_within-le limit window a key h p,
  text_eq_iff k key,
  λ (early : t - window ≤ a). count_within-le-count_since key (t - window) a (a + window) h early,
)

-- From a new limiter and a clock that does not go back, every interval as long as the window,
-- wherever it starts, holds at most `limit` admitted calls of one key.
pub admitted_bound :
    (limit window : ℕ) (calls : List (Text × ℕ)) (key : Text) (from : ℕ)
    → AreLater 0 calls
    → count_within key from (from + window) (admitted (new_limiter limit window) [] calls) ≤ limit
admitted_bound limit window calls key from later = count_within-le limit window from key _ (
    admitted-IsLimited limit window (new_limiter limit window) 0 [] calls (refl, refl)
      (Tracks-new limit window) later tt)
