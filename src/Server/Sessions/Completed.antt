-- ===== src/Server/Sessions/Completed.antt =====
-- A request with a session whose key needs no lookup.
use aiss_waf_server.Prelude.{ℕ, ◌≡◌, refl, ap, ◌∙◌, false, Option, none, List, [], ◌∷◌, arith}
use aiss_waf_server.Server.Sessions.{
  Op, acquire, release, work, settled, Caller, needs_lookup, verify_api_key, get_db, with_db, ops,
  State, go, set_thread, try_acquire, advance, step, run,
}

module _ (D : Type 0) where
  set_self :
      (n : ℕ) (left : List (Op D)) (threads : ℕ → List (Op D))
      → set_thread D n left threads n ≡ left
  unfolding set_thread
  set_self n left threads = ground arith

  go-acquire :
      (n : ℕ) (left : List (Op D)) (s : State D)
      → s.threads n ≡ acquire ∷ left
      → s.holder ≡ none
      → ((step D (go n) s).threads n ≡ left) × ((step D (go n) s).db ≡ s.db)
  unfolding step
  go-acquire n left s e f = rw (e, advance, f, try_acquire) (set_self n left s.threads, refl)

  go-work :
      (n : ℕ) (f : D → D) (left : List (Op D)) (s : State D)
      → s.threads n ≡ work f ∷ left
      → ((step D (go n) s).threads n ≡ left) × ((step D (go n) s).db ≡ f s.db)
  unfolding step
  go-work n f left s e = rw (e, advance) (set_self n left s.threads, refl)

  go-release :
      (n : ℕ) (left : List (Op D)) (s : State D)
      → s.threads n ≡ release ∷ left
      → ((step D (go n) s).threads n ≡ left)
        × ((step D (go n) s).db ≡ s.db)
        × ((step D (go n) s).holder ≡ none)
  unfolding step
  go-release n left s e = rw (e, advance) (set_self n left s.threads, refl, refl)

  needs_none :
      (c : Caller D) (body : D → Option D)
      → needs_lookup D c ≡ false
      → ops D (with_db c body) ≡ acquire ∷ work (settled D body) ∷ release ∷ []
  unfolding ops get_db verify_api_key
  needs_none c body e = rw e refl

  -- A request with `get_db` and a key that needs no lookup, which finds the lock free and goes on
  -- alone, is done after three steps: the lock is free, and the database is that of its body, or as
  -- it was where the body raises.
  run-completed :
      (s : State D) (n : ℕ) (c : Caller D) (body : D → Option D)
      → needs_lookup D c ≡ false
      → s.holder ≡ none
      → s.threads n ≡ ops D (with_db c body)
      → let t = run D (go n ∷ go n ∷ go n ∷ []) s in
        (t.holder ≡ none) × (t.db ≡ settled D body s.db) × (t.threads n ≡ [])
  unfolding run
  run-completed s n c body e f g =
      let (a, d) = go-acquire n _ s (g ∙ needs_none c body e) f in
      let (a', d') = go-work n _ _ (step D (go n) s) a in
      let (a'', d'', free) = go-release n _ (step D (go n) (step D (go n) s)) a' in
      (free, d'' ∙ (d' ∙ ap (settled D body) d), a'')
