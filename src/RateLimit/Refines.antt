-- ===== src/RateLimit/Refines.antt =====
-- The limiter decides as the history of admitted calls says.
use aiss_waf_server.Prelude.{
  ℕ, ◌-◌, ◌≤◌, ◌≡◌, refl, ap, ◌∙◌, Bool, true, false, List, [], ◌∷◌, ◌++◌, length, arith,
  Bool-cases, inl, inr, if◌then◌else◌,
}
use aiss_waf_server.Prelude.Text.{Text, text_eq, text_eq_iff}
use aiss_waf_server.Prelude.Dict.{text_keys, lookup, lookup-insert}
use aiss_waf_server.RateLimit.{Limiter, new_limiter, evict, is_allowed}
use aiss_waf_server.RateLimit.History.{History, count_since, admits, remember, spec_run}
use aiss_waf_server.RateLimit.Queue.{
  length-evict, TracksKey, TracksKey-later, TracksKey-evict, TracksKey-admit, TracksKey-other,
  queue, Tracks,
}

length-evict_queue :
    (l : Limiter) (now : ℕ) (h : History) (key : Text)
    → Tracks l now h
    → length (evict (now - l.window) (queue l key)) ≡ count_since key (now - l.window) h
length-evict_queue l now h key t =
    length-evict (now - l.window) (queue l key) (t.key key).asc
    ∙ (t.key key).counts (now - l.window) (omega arith)

is_allowed-admits :
    (l : Limiter) (now : ℕ) (h : History) (key : Text)
    → Tracks l now h
    → (is_allowed l key now).0.0 ≡ admits l.limit l.window h key now
unfolding is_allowed
is_allowed-admits l now h key t = ground (arith, length-evict_queue l now h key t)

-- What the call leaves in the queue of each key.
abbrev queue_after : Limiter → Text → ℕ → Bool → List ℕ
queue_after l key now b =
    let dq = evict (now - l.window) (queue l key) in if b then dq ++ (now ∷ []) else dq

queue-is_allowed :
    (l : Limiter) (key j : Text) (now : ℕ)
    → queue (is_allowed l key now).1 j
      ≡ (if text_eq key j then queue_after l key now (is_allowed l key now).0.0 else queue l j)
unfolding is_allowed
queue-is_allowed l key j now =
    let dq = evict (now - l.window) (queue l key) in
    ground (arith, lookup-insert key j dq l.store, lookup-insert key j (dq ++ (now ∷ [])) l.store)

window-is_allowed :
    (l : Limiter) (key : Text) (now : ℕ)
    → ((is_allowed l key now).1.window ≡ l.window) × ((is_allowed l key now).1.limit ≡ l.limit)
unfolding is_allowed
window-is_allowed l key now = (ground arith, ground arith)

-- The queue of one key after a call, admitted or not.
TracksKey-after :
    (l : Limiter) (now : ℕ) (h : History) (key j : Text) (b : Bool)
    → Tracks l now h
    → TracksKey l.window now j
        (if text_eq key j then queue_after l key now b else queue l j)
        (remember b key now h)
TracksKey-after l now h key j b t = elim (Bool-cases (text_eq key j)) [
  | inl same ↦ rw same (at_key ((text_eq_iff key j).0 same) b)
  | inr other ↦ rw other (at_other other b)
]
  where
    at_key :
        key ≡ j
        → (b : Bool) → TracksKey l.window now j (queue_after l key now b) (remember b key now h)
    at_key e true =
        rw (← e)
          (TracksKey-admit l.window now key _ h (TracksKey-evict l.window now key _ h (t.key key)))
    at_key e false = rw (← e) (TracksKey-evict l.window now key _ h (t.key key))

    at_other :
        text_eq key j ≡ false
        → (b : Bool) → TracksKey l.window now j (queue l j) (remember b key now h)
    at_other e true = TracksKey-other l.window now key j _ h e (t.key j)
    at_other e false = t.key j

pub Tracks-is_allowed :
    (l : Limiter) (now : ℕ) (h : History) (key : Text)
    → Tracks l now h
    → Tracks (is_allowed l key now).1 now (remember (is_allowed l key now).0.0 key now h)
Tracks-is_allowed l now h key t = record {
  key = λ j.
      rw (queue-is_allowed l key j now, (window-is_allowed l key now).0)
        (TracksKey-after l now h key j (is_allowed l key now).0.0 t);
}

pub Tracks-later :
    (l : Limiter) (last now : ℕ) (h : History) → last ≤ now → Tracks l last h → Tracks l now h
Tracks-later l last now h le t = record {
  key = λ k. TracksKey-later l.window last now k (queue l k) h le (t.key k);
}

pub Tracks-new : (limit window : ℕ) → Tracks (new_limiter limit window) 0 []
unfolding lookup
Tracks-new limit window = record {
  key = λ k. record { asc = tt; below = tt; counts = λ c h. refl };
}

-- The calls of a limiter, at the times that the clock shows.
unfoldable pub run : Limiter → List (Text × ℕ) → List Bool × Limiter
run l [] = ([], l)
run l ((key, now) ∷ calls) =
    let (r, l') = is_allowed l key now in let (bs, l'') = run l' calls in (r.0 ∷ bs, l'')

-- The clock does not go back.
abbrev pub AreLater : ℕ → List (Text × ℕ) → Type 0
AreLater last [] = Unit
AreLater last ((key, now) ∷ calls) = (last ≤ now) × AreLater now calls

abbrev pub HasParameters : (limit window : ℕ) → Limiter → Type 0
HasParameters limit window l = (l.limit ≡ limit) × (l.window ≡ window)

pub is_allowed-HasParameters :
    (limit window : ℕ) (l : Limiter) (key : Text) (now : ℕ)
    → HasParameters limit window l
    → HasParameters limit window (is_allowed l key now).1
is_allowed-HasParameters limit window l key now (el, ew) =
    ((window-is_allowed l key now).1 ∙ el, (window-is_allowed l key now).0 ∙ ew)

pub is_allowed-admits_at :
    (limit window : ℕ) (l : Limiter) (now : ℕ) (h : History) (key : Text)
    → HasParameters limit window l
    → Tracks l now h
    → (is_allowed l key now).0.0 ≡ admits limit window h key now
is_allowed-admits_at limit window l now h key (el, ew) t =
    rw (← el, ← ew) (is_allowed-admits l now h key t)

run-spec_run :
    (limit window : ℕ) (l : Limiter) (last : ℕ) (h : History) (calls : List (Text × ℕ))
    → HasParameters limit window l
    → Tracks l last h
    → AreLater last calls
    → (run l calls).0 ≡ (spec_run limit window h calls).0
unfolding run spec_run
run-spec_run limit window l last h [] same t later = refl
run-spec_run limit window l last h ((key, now) ∷ calls) same t (le, later) =
    let t' = Tracks-later l last now h le t in
    let b = (is_allowed l key now).0.0 in
    rw (← is_allowed-admits_at limit window l now h key same t') (
      ap (λ bs. b ∷ bs)
        (run-spec_run limit window (is_allowed l key now).1 now (remember b key now h) calls
          (is_allowed-HasParameters limit window l key now same) (Tracks-is_allowed l now h key t')
          later))

-- From a new limiter and a clock that does not go back, each call is admitted exactly if
-- fewer than `limit` calls of its key were admitted in the window that ends with it.
pub run_refines :
    (limit window : ℕ) (calls : List (Text × ℕ))
    → AreLater 0 calls
    → (run (new_limiter limit window) calls).0 ≡ (spec_run limit window [] calls).0
run_refines limit window calls later =
    run-spec_run limit window (new_limiter limit window) 0 [] calls (refl, refl)
      (Tracks-new limit window) later
