-- ===== src/RateLimit/Queue.antt =====
-- The deques of the limiter against the history of admitted calls.
use aiss_waf_server.Prelude.{
  ℕ, ◌+◌, ◌-◌, ◌≤◌, ◌≡◌, refl, false, List, [], ◌∷◌, ◌++◌, length, All, All-append, ltb, leb, arith,
  if◌then◌else◌, Bool-cases, inl, inr,
}
use aiss_waf_server.Prelude.Order.{IsAscending}
use aiss_waf_server.Prelude.Text.{Text, text_eq, text_eq_iff}
use aiss_waf_server.Prelude.Dict
use aiss_waf_server.Prelude.Dict.{text_keys}
use aiss_waf_server.RateLimit.{Limiter, evict}
use aiss_waf_server.RateLimit.History.{History, count_since}

abbrev pub count_ge : ℕ → List ℕ → ℕ
count_ge c [] = 0
count_ge c (t ∷ dq) = if leb c t then 1 + count_ge c dq else count_ge c dq

count_ge-All : (c x : ℕ) (dq : List ℕ) → c ≤ x → All (λ y. x ≤ y) dq → count_ge c dq ≡ length dq
count_ge-All c x [] h a = refl
count_ge-All c x (t ∷ dq) h (le, a) = ground (arith, count_ge-All c x dq h a)

pub length-evict : (c : ℕ) (dq : List ℕ) → IsAscending dq → length (evict c dq) ≡ count_ge c dq
unfolding evict
length-evict c [] s = refl
length-evict c (t ∷ dq) (a, s) =
    ground (arith, length-evict c dq s, λ (h : c ≤ t). count_ge-All c t dq h a)

count_ge-evict : (c c' : ℕ) (dq : List ℕ) → c ≤ c' → count_ge c' (evict c dq) ≡ count_ge c' dq
unfolding evict
count_ge-evict c c' [] h = refl
count_ge-evict c c' (t ∷ dq) h = ground (arith, count_ge-evict c c' dq h)

All-evict {ℓ} : (P : ℕ → Type ℓ) (c : ℕ) (dq : List ℕ) → All P dq → All P (evict c dq)
unfolding evict
All-evict P c [] a = a
All-evict P c (t ∷ dq) a = elim (Bool-cases (ltb t c)) [
  | inl e ↦ rw e (All-evict P c dq a.1)
  | inr e ↦ rw e a
]

IsAscending-evict : (c : ℕ) (dq : List ℕ) → IsAscending dq → IsAscending (evict c dq)
unfolding evict
IsAscending-evict c [] s = s
IsAscending-evict c (t ∷ dq) s = elim (Bool-cases (ltb t c)) [
  | inl e ↦ rw e (IsAscending-evict c dq s.1)
  | inr e ↦ rw e s
]

count_ge-snoc :
    (c t : ℕ) (dq : List ℕ)
    → count_ge c (dq ++ (t ∷ [])) ≡ (if leb c t then 1 + count_ge c dq else count_ge c dq)
count_ge-snoc c t [] = refl
count_ge-snoc c t (x ∷ dq) = ground (arith, count_ge-snoc c t dq)

IsAscending-snoc :
    (t : ℕ) (dq : List ℕ) → IsAscending dq → All (λ y. y ≤ t) dq → IsAscending (dq ++ (t ∷ []))
IsAscending-snoc t [] s b = (tt, tt)
IsAscending-snoc t (x ∷ dq) (a, s) (le, b) =
    (All-append (λ y. x ≤ y) dq (t ∷ []) a (le, tt), IsAscending-snoc t dq s b)

All-le-weaken : (a b : ℕ) (dq : List ℕ) → a ≤ b → All (λ y. y ≤ a) dq → All (λ y. y ≤ b) dq
All-le-weaken a b [] h p = p
All-le-weaken a b (x ∷ dq) h (le, p) = (omega arith, All-le-weaken a b dq h p)

-- One deque against the history of its key, up to the last time that the clock showed.
pub record TracksKey (window last : ℕ) (k : Text) (dq : List ℕ) (h : History) : Type 0 where
  pub asc : IsAscending dq
  pub below : All (λ t. t ≤ last) dq
  pub counts : (c : ℕ) → last - window ≤ c → count_ge c dq ≡ count_since k c h

abbrev pub queue : Limiter → Text → List ℕ
queue l k = Dict.get_or k [] l.store

pub record Tracks (l : Limiter) (last : ℕ) (h : History) : Type 0 where
  pub key : (k : Text) → TracksKey l.window last k (queue l k) h

-- Time passes.
pub TracksKey-later :
    (w last now : ℕ) (k : Text) (dq : List ℕ) (h : History)
    → last ≤ now
    → TracksKey w last k dq h
    → TracksKey w now k dq h
TracksKey-later w last now k dq h le t = record {
  asc = t.asc;
  below = All-le-weaken last now dq le t.below;
  counts = λ c hc. t.counts c (omega arith);
}

pub TracksKey-evict :
    (w now : ℕ) (k : Text) (dq : List ℕ) (h : History)
    → TracksKey w now k dq h
    → TracksKey w now k (evict (now - w) dq) h
TracksKey-evict w now k dq h t = record {
  asc = IsAscending-evict (now - w) dq t.asc;
  below = All-evict (λ y. y ≤ now) (now - w) dq t.below;
  counts = λ c hc. rw (count_ge-evict (now - w) c dq hc) (t.counts c hc);
}

pub TracksKey-admit :
    (w now : ℕ) (k : Text) (dq : List ℕ) (h : History)
    → TracksKey w now k dq h
    → TracksKey w now k (dq ++ (now ∷ [])) ((k, now) ∷ h)
TracksKey-admit w now k dq h t = record {
  asc = IsAscending-snoc now dq t.asc t.below;
  below = All-append (λ y. y ≤ now) dq (now ∷ []) t.below (omega arith, tt);
  counts = λ c hc. ground (arith, count_ge-snoc c now dq, t.counts c hc, text_eq_iff k k);
}

pub TracksKey-other :
    (w now : ℕ) (k j : Text) (dq : List ℕ) (h : History)
    → text_eq k j ≡ false
    → TracksKey w now j dq h
    → TracksKey w now j dq ((k, now) ∷ h)
TracksKey-other w now k j dq h e t = record {
  asc = t.asc;
  below = t.below;
  counts = λ c hc. rw e (t.counts c hc);
}
