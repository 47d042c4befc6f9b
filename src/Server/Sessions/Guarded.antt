-- ===== src/Server/Sessions/Guarded.antt =====
-- What each thread has left to do is well placed towards the lock of the server's database.
use aiss_waf_server.Prelude.{
  ℕ, ◌≡◌, refl, sym, Bool, true, false, ◌==◌, Option, none, some, List, [], ◌∷◌, arith, Bool-cases,
  inl, inr,
}
use mathlib.Core.Path.{subst}
use aiss_waf_server.Server.Sessions.{
  Op, acquire, release, work, needs_lookup, verify_api_key, lookup_api_key, get_db, exchange_key,
  exchange_looks_up, Task, with_db, exchange, verified, background, ops, State, start, Event, begin,
  go, set_thread, try_acquire, advance, assign, step, run,
}

module _ (D : Type 0) where
  -- What a thread has left to do is well placed if it is in a section of the lock, or is not.
  unfoldable pub IsPlaced : (inside : Bool) → List (Op D) → Type 0
  IsPlaced false [] = Unit
  IsPlaced false (acquire ∷ left) = IsPlaced true left
  IsPlaced false (release ∷ left) = ⊥
  IsPlaced false (work f ∷ left) = ⊥
  IsPlaced true [] = ⊥
  IsPlaced true (acquire ∷ left) = Unit
  IsPlaced true (release ∷ left) = IsPlaced false left
  IsPlaced true (work f ∷ left) = IsPlaced true left

  unfoldable pub holds : Option ℕ → ℕ → Bool
  holds none m = false
  holds (some n) m = n == m

  unfoldable pub IsGuarded : State D → Type 0
  unfolding IsPlaced holds
  IsGuarded s = (m : ℕ) → IsPlaced (holds s.holder m) (s.threads m)

  pub ops-IsPlaced : (t : Task D) → IsPlaced false (ops D t)
  unfolding IsPlaced ops get_db verify_api_key exchange_key lookup_api_key
  ops-IsPlaced (with_db c body) = elim (Bool-cases (needs_lookup D c)) [
    | inl e ↦ rw e tt
    | inr e ↦ rw e tt
  ]
  ops-IsPlaced (exchange c body) = elim (Bool-cases (exchange_looks_up D c)) [
    | inl e ↦ rw e tt
    | inr e ↦ rw e tt
  ]
  ops-IsPlaced (verified c) = elim (Bool-cases (needs_lookup D c)) [
    | inl e ↦ rw e tt
    | inr e ↦ rw e tt
  ]
  ops-IsPlaced (background body) = tt

  -- Another thread keeps its operations.
  set_thread-IsPlaced :
      (b : ℕ → Bool) (n : ℕ) (left : List (Op D)) (threads : ℕ → List (Op D))
      → IsPlaced (b n) left
      → ((m : ℕ) → (n == m) ≡ false → IsPlaced (b m) (threads m))
      → (m : ℕ) → IsPlaced (b m) (set_thread D n left threads m)
  unfolding set_thread
  set_thread-IsPlaced b n left threads h k m = elim (Bool-cases (n == m)) [
    | inl e ↦ rw e (subst (λ i. IsPlaced (b i) left) (ground (arith, e)) h)
    | inr e ↦ rw e (k m e)
  ]

  -- A thread in its section is the one that holds the lock.
  holds-other :
      (holder : Option ℕ) (n m : ℕ)
      → holds holder n ≡ true
      → (n == m) ≡ false
      → holds holder m ≡ false
  unfolding holds
  holds-other none n m h e = refl
  holds-other (some k) n m h e = ground (arith, h, e)

  pub not_holding : (n m : ℕ) → (n == m) ≡ false → holds (some n) m ≡ false
  unfolding holds
  not_holding n m e = e

  holds_self : (n : ℕ) → holds (some n) n ≡ true
  unfolding holds
  holds_self n = ground arith

  idle : (b : Bool) → IsPlaced b [] → b ≡ false
  unfolding IsPlaced
  idle true h = absurd h
  idle false h = refl

  releasing :
      (b : Bool) (left : List (Op D))
      → IsPlaced b (release ∷ left)
      → (b ≡ true) × IsPlaced false left
  unfolding IsPlaced
  releasing true left h = (refl, h)
  releasing false left h = absurd h

  working :
      (b : Bool) (f : D → D) (left : List (Op D))
      → IsPlaced b (work f ∷ left)
      → (b ≡ true) × IsPlaced true left
  unfolding IsPlaced
  working true f left h = (refl, h)
  working false f left h = absurd h

  -- The operations of a thread, at hand.
  threads-IsPlaced :
      (n : ℕ) (left : List (Op D)) (s : State D)
      → s.threads n ≡ left
      → IsGuarded s
      → IsPlaced (holds s.holder n) left
  unfolding IsGuarded
  threads-IsPlaced n left s e g = subst (IsPlaced (holds s.holder n)) e (g n)

  assign-IsGuarded :
      (left : List (Op D)) (n : ℕ) (t : Task D) (s : State D)
      → s.threads n ≡ left
      → IsGuarded s
      → IsGuarded (assign D left n t s)
  unfolding assign IsGuarded
  assign-IsGuarded [] n t s e g =
      set_thread-IsPlaced (holds s.holder) n (ops D t) s.threads
        (subst (λ b. IsPlaced b (ops D t)) (sym (idle _ (threads-IsPlaced n [] s e g)))
          (ops-IsPlaced t))
        (λ m _. g m)
  assign-IsGuarded (o ∷ left) n t s e g = g

  pub free :
      (m : ℕ) (left : List (Op D)) (holder : Option ℕ)
      → holder ≡ none
      → IsPlaced (holds holder m) left
      → IsPlaced false left
  unfolding holds
  free m left holder e h = subst (λ o. IsPlaced (holds o m) left) e h

  try_acquire-IsGuarded :
      (holder : Option ℕ) (n : ℕ) (left : List (Op D)) (s : State D)
      → s.holder ≡ holder
      → s.threads n ≡ acquire ∷ left
      → IsGuarded s
      → IsGuarded (try_acquire D holder n left s)
  unfolding try_acquire IsGuarded IsPlaced
  try_acquire-IsGuarded none n left s e f g =
      set_thread-IsPlaced (holds (some n)) n left s.threads
        (subst (λ b. IsPlaced b left) (sym (holds_self n))
          (free n (acquire ∷ left) s.holder e (threads-IsPlaced n (acquire ∷ left) s f g)))
        (λ m ne.
          subst (λ b. IsPlaced b (s.threads m)) (sym (not_holding n m ne))
            (free m (s.threads m) s.holder e (g m)))
  try_acquire-IsGuarded (some m) n left s e f g = g

  advance-IsGuarded :
      (left : List (Op D)) (n : ℕ) (s : State D)
      → s.threads n ≡ left
      → IsGuarded s
      → IsGuarded (advance D n left s)
  unfolding advance IsGuarded holds
  advance-IsGuarded [] n s e g = g
  advance-IsGuarded (acquire ∷ left) n s e g = try_acquire-IsGuarded s.holder n left s refl e g
  advance-IsGuarded (release ∷ left) n s e g =
      let h = releasing (holds s.holder n) left (threads-IsPlaced n (release ∷ left) s e g) in
      set_thread-IsPlaced (holds none) n left s.threads h.1
        (λ m ne. subst (λ b. IsPlaced b (s.threads m)) (holds-other s.holder n m h.0 ne) (g m))
  advance-IsGuarded (work f ∷ left) n s e g =
      let h = working (holds s.holder n) f left (threads-IsPlaced n (work f ∷ left) s e g) in
      set_thread-IsPlaced (holds s.holder) n left s.threads
        (subst (λ b. IsPlaced b left) (sym h.0) h.1) (λ m _. g m)

  step-IsGuarded : (e : Event D) (s : State D) → IsGuarded s → IsGuarded (step D e s)
  unfolding step
  step-IsGuarded (begin n t) s g = assign-IsGuarded (s.threads n) n t s refl g
  step-IsGuarded (go n) s g = advance-IsGuarded (s.threads n) n s refl g

  pub run-IsGuarded : (es : List (Event D)) (s : State D) → IsGuarded s → IsGuarded (run D es s)
  unfolding run
  run-IsGuarded [] s g = g
  run-IsGuarded (e ∷ es) s g = run-IsGuarded es (step D e s) (step-IsGuarded e s g)

  pub start-IsGuarded : (d : D) → IsGuarded (start D d)
  unfolding start IsGuarded holds IsPlaced
  start-IsGuarded d m = tt
