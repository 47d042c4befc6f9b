-- ===== src/Server/Sessions/Deadlock.antt =====
-- A request that waits for the lock of the server's database while it holds it.
use aiss_waf_server.Prelude.{
  Bool, ℕ, ◌≡◌, refl, sym, ap, ◌∙◌, true, false, ◌==◌, Option, none, some, List, [], ◌∷◌, is_empty,
  arith, Bool-cases, inl, inr,
}
use mathlib.Core.Path.{subst}
use aiss_waf_server.Server.Sessions.{
  Op, acquire, release, work, needs_lookup, verify_api_key, lookup_api_key, get_db, Task, with_db,
  exchange, verified, background, exchange_key, exchange_looks_up, ops, State, start, Event, begin,
  go, set_thread, try_acquire, advance, assign, step, run,
}
use aiss_waf_server.Server.Sessions.Guarded.{
  IsPlaced, IsGuarded, ops-IsPlaced, free, run-IsGuarded, start-IsGuarded,
}

module _ (D : Type 0) where
  Waits : List (Op D) → Type 0
  Waits [] = Unit
  Waits (acquire ∷ left) = Unit
  Waits (release ∷ left) = ⊥
  Waits (work f ∷ left) = ⊥

  placed-Waits : (left : List (Op D)) → IsPlaced D false left → Waits left
  unfolding IsPlaced Waits
  placed-Waits [] h = tt
  placed-Waits (acquire ∷ left) h = tt
  placed-Waits (release ∷ left) h = absurd h
  placed-Waits (work f ∷ left) h = absurd h

  -- A thread holds the lock, and all threads are done or wait for it.
  record IsFrozen (n : ℕ) (s : State D) : Type 0 where
    held : s.holder ≡ some n
    waiting : (m : ℕ) → Waits (s.threads m)

  -- What a step leaves as it is.
  record IsKept (s t : State D) : Type 0 where
    db : t.db ≡ s.db
    busy : (m : ℕ) → is_empty (s.threads m) ≡ false → t.threads m ≡ s.threads m

  IsKept-refl : (s : State D) → IsKept s s
  IsKept-refl s = record { db = refl; busy = λ m _. refl }

  blocked :
      (holder : Option ℕ) (n m : ℕ) (left : List (Op D)) (s : State D)
      → holder ≡ some n
      → try_acquire D holder m left s ≡ s
  unfolding try_acquire
  blocked none n m left s e = ground (arith, e)
  blocked (some k) n m left s e = refl

  set_thread-Waits :
      (n : ℕ) (left : List (Op D)) (threads : ℕ → List (Op D))
      → Waits left
      → ((m : ℕ) → Waits (threads m))
      → (m : ℕ) → Waits (set_thread D n left threads m)
  unfolding set_thread
  set_thread-Waits n left threads h k m = elim (Bool-cases (n == m)) [
    | inl e ↦ rw e h
    | inr e ↦ rw e (k m)
  ]

  -- A thread that is busy is not the one that is set.
  set_thread-busy :
      (n : ℕ) (left : List (Op D)) (threads : ℕ → List (Op D))
      → threads n ≡ []
      → (m : ℕ) → is_empty (threads m) ≡ false
      → set_thread D n left threads m ≡ threads m
  unfolding set_thread
  set_thread-busy n left threads e m b = elim (Bool-cases (n == m)) [
    | inl same ↦
        let e' : is_empty (threads m) ≡ true =
          ap is_empty (ap threads (sym (ground (arith, same))) ∙ e) in
        ground (arith, sym e' ∙ b)
    | inr other ↦ rw other refl
  ]

  assign-IsFrozen :
      (left : List (Op D)) (n k : ℕ) (t : Task D) (s : State D)
      → s.threads k ≡ left
      → IsFrozen n s
      → IsFrozen n (assign D left k t s) × IsKept s (assign D left k t s)
  unfolding assign
  assign-IsFrozen [] n k t s e h = (
    record {
      held = h.held;
      waiting =
          set_thread-Waits k (ops D t) s.threads (placed-Waits _ (ops-IsPlaced D t)) h.waiting;
    },
    record { db = refl; busy = set_thread-busy k (ops D t) s.threads e },
  )
  assign-IsFrozen (o ∷ left) n k t s e h = (h, IsKept-refl s)

  advance-kept :
      (left : List (Op D)) (n k : ℕ) (s : State D)
      → s.threads k ≡ left
      → IsFrozen n s
      → advance D k left s ≡ s
  unfolding advance Waits
  advance-kept [] n k s e h = refl
  advance-kept (acquire ∷ left) n k s e h = blocked s.holder n k left s h.held
  advance-kept (release ∷ left) n k s e h = absurd (subst Waits e (h.waiting k))
  advance-kept (work f ∷ left) n k s e h = absurd (subst Waits e (h.waiting k))

  IsKept-trans : (s t u : State D) → IsKept s t → IsKept t u → IsKept s u
  IsKept-trans s t u h k = record {
    db = k.db ∙ h.db;
    busy = λ m b. k.busy m (ap is_empty (h.busy m b) ∙ b) ∙ h.busy m b;
  }

  step-IsFrozen :
      (n : ℕ) (e : Event D) (s : State D)
      → IsFrozen n s
      → IsFrozen n (step D e s) × IsKept s (step D e s)
  unfolding step
  step-IsFrozen n (begin k t) s h = assign-IsFrozen (s.threads k) n k t s refl h
  step-IsFrozen n (go k) s h =
      subst (λ t. IsFrozen n t × IsKept s t) (sym (advance-kept (s.threads k) n k s refl h))
        (h, IsKept-refl s)

  run-IsFrozen :
      (n : ℕ) (es : List (Event D)) (s : State D)
      → IsFrozen n s
      → IsFrozen n (run D es s) × IsKept s (run D es s)
  unfolding run
  run-IsFrozen n [] s h = (h, IsKept-refl s)
  run-IsFrozen n (e ∷ es) s h =
      let (h', k) = step-IsFrozen n e s h in
      let (h'', k') = run-IsFrozen n es (step D e s) h' in
      (h'', IsKept-trans s (step D e s) (run D es (step D e s)) k k')

  -- The thread takes the lock, and all others wait, where it then asks for it again.
  taken :
      (n : ℕ) (left : List (Op D)) (s : State D)
      → s.holder ≡ none
      → s.threads n ≡ acquire ∷ left
      → Waits left
      → IsGuarded D s
      → IsFrozen n (step D (go n) s) × ((step D (go n) s).db ≡ s.db)
  unfolding step advance try_acquire IsGuarded
  taken n left s e f w g =
      rw (f, advance, e, try_acquire)
        (
          record {
            held = refl;
            waiting =
                set_thread-Waits n left s.threads w
                  (λ m. placed-Waits (s.threads m) (free D m (s.threads m) s.holder e (g m)));
          },
          refl,
        )

  -- The task asks for the lock again in its section.
  abbrev pub asks_again : Task D → Bool
  asks_again (with_db c body) = needs_lookup D c
  asks_again (exchange c body) = exchange_looks_up D c
  asks_again (verified c) = false
  asks_again (background body) = false

  looks_up :
      (t : Task D)
      → asks_again t ≡ true
      → (left : List (Op D)) × (ops D t ≡ acquire ∷ left) × Waits left
  unfolding ops get_db verify_api_key exchange_key lookup_api_key Waits
  looks_up (with_db c body) e = rw e (_, refl, tt)
  looks_up (exchange c body) e = rw e (_, refl, tt)
  looks_up (verified c) e = ground (arith, e)
  looks_up (background body) e = ground (arith, e)

  -- Once a request takes the free lock whose handler declares `get_db` before `verify_api_key` and
  -- whose key has to be looked up, or that exchanges a key that has to be looked up, whatever ran
  -- before: whatever happens then, the request holds the lock, the database stays as it was, and no
  -- thread that has something left to do gets on.
  pub run-deadlocked :
      (d : D) (es later : List (Event D)) (n m : ℕ) (t : Task D)
      → asks_again t ≡ true
      → (run D es (start D d)).holder ≡ none
      → (run D es (start D d)).threads n ≡ ops D t
      → is_empty ((step D (go n) (run D es (start D d))).threads m) ≡ false
      → let s = step D (go n) (run D es (start D d)) in
        let s' = run D later s in
        (s'.holder ≡ some n) × (s'.db ≡ (run D es (start D d)).db) × (s'.threads m ≡ s.threads m)
  run-deadlocked d es later n m t e f g b =
      let (left, h, w) = looks_up t e in
      let s = run D es (start D d) in
      let (frozen, same) =
        taken n left s f (g ∙ h) w (run-IsGuarded D es (start D d) (start-IsGuarded D d)) in
      let (still, kept) = run-IsFrozen n later (step D (go n) s) frozen in
      (still.held, kept.db ∙ same, kept.busy m b)
