-- ===== src/Agent/Database/Raising.antt =====
-- A statement of agent/db/duckdb_store.py that raises in the writer thread.
use aiss_waf_server.Prelude.{
  ℕ, suc, ◌≤◌, ◌≡◌, refl, ap, ◌∙◌, Bool, true, false, List, [], ◌∷◌, ◌++◌, length, take, drop,
  arith, zero,
}
use aiss_waf_server.Agent.Database.{
  Tables, Statement, Store, batch_size, execute, execute_batch, write_round,
}

module _ {F : Type 0} (raises : Tables F → Statement F → Bool) where
  -- The statements one after the other, whatever raises.
  unfoldable pub execute_all : ℕ → List (Statement F) → Tables F → Tables F
  execute_all now [] t = t
  execute_all now (s ∷ ss) t = execute_all now ss (execute now s t)

  -- None of the statements raises.
  abbrev pub IsAccepted : ℕ → List (Statement F) → Tables F → Type 0
  IsAccepted now [] t = Unit
  IsAccepted now (s ∷ ss) t = (raises t s ≡ false) × IsAccepted now ss (execute now s t)

  execute_batch-raising :
      (now : ℕ) (earlier : List (Statement F)) (s : Statement F) (later : List (Statement F))
      (t : Tables F)
      → IsAccepted now earlier t
      → raises (execute_all now earlier t) s ≡ true
      → execute_batch raises now (earlier ++ (s ∷ later)) t ≡ execute_all now earlier t
  unfolding execute_all execute_batch
  execute_batch-raising now [] s later t h r = rw r refl
  execute_batch-raising now (x ∷ earlier) s later t (h, hs) r =
      rw h (execute_batch-raising now earlier s later (execute now x t) hs r)

  take-all : {A : Type 0} (n : ℕ) (xs : List A) → length xs ≤ n → take n xs ≡ xs
  take-all zero [] h = refl
  take-all zero (x ∷ xs) h = ground (arith, h)
  take-all (suc n) [] h = refl
  take-all (suc n) (x ∷ xs) h = ap (λ ys. x ∷ ys) (take-all n xs (omega (arith, h)))

  drop-all : {A : Type 0} (n : ℕ) (xs : List A) → length xs ≤ n → drop n xs ≡ []
  drop-all zero [] h = refl
  drop-all zero (x ∷ xs) h = ground (arith, h)
  drop-all (suc n) [] h = refl
  drop-all (suc n) (x ∷ xs) h = drop-all n xs (omega (arith, h))

  -- In a round of the running writer on at most one batch: where a statement raises and none before
  -- it does, the earlier ones are written, the later ones are not, and the queue is empty, so that
  -- they are lost.
  pub write_round-raising :
      (now : ℕ) (st : Store F) (earlier : List (Statement F)) (s : Statement F)
      (later : List (Statement F))
      → st.closed ≡ false
      → st.queue ≡ earlier ++ (s ∷ later)
      → length (earlier ++ (s ∷ later)) ≤ batch_size
      → IsAccepted now earlier st.tables
      → raises (execute_all now earlier st.tables) s ≡ true
      → ((write_round raises now st).tables ≡ execute_all now earlier st.tables)
        × ((write_round raises now st).queue ≡ [])
  unfolding write_round
  write_round-raising now st earlier s later o q n h r =
      rw (o, q)
        (
          ap (λ b. execute_batch raises now b st.tables) (take-all batch_size _ n)
              ∙ execute_batch-raising now earlier s later st.tables h r,
          drop-all batch_size _ n,
        )
