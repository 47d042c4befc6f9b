-- ===== src/Agent/Database/Writes.antt =====
-- The queue of agent/db/duckdb_store.py: what the writer thread has made of the calls once the
-- queue is empty, how many rounds that takes, and what an exception of the database loses.
use aiss_waf_server.Prelude.{
  ℕ, zero, suc, ◌≤◌, ◌≡◌, refl, sym, ap, ◌∙◌, Bool, false, Option, none, some, List, [], ◌∷◌, ◌++◌,
  take, drop, All, Bool-cases, inl, inr, if◌then◌else◌,
}
use aiss_waf_server.Agent.Database.{
  Tables, Statement, Store, Call, write, round, close, batch_size, has_room, enqueue, execute,
  execute_batch, write_round, call, run,
}
use aiss_waf_server.Agent.Database.Reads.{View, override}

-- The last of the list that writes.
unfoldable pub last_of {ℓ κ} : {A : Type ℓ} {B : Type κ} → (A → Option B) → List A → Option B
last_of f [] = none
last_of f (a ∷ rest) = elim (last_of f rest) [ none ↦ f a | some b ↦ some b ]

take-drop : {A : Type 0} (n : ℕ) (xs : List A) → take n xs ++ drop n xs ≡ xs
take-drop zero xs = refl
take-drop (suc n) [] = refl
take-drop (suc n) (x ∷ xs) = ap (λ ys. x ∷ ys) (take-drop n xs)

module _ {F : Type 0} (raises : Tables F → Statement F → Bool) where
  -- The statements that the queue takes, in order.
  unfoldable pub taken : Call F → Store F → List (Statement F)
  taken (write s) st = if has_room raises st then s ∷ [] else []
  taken _ st = []

  unfoldable pub accepted : List (Call F) → Store F → List (Statement F)
  accepted [] st = []
  accepted (c ∷ cs) st = taken c st ++ accepted cs (call raises c st)

  -- The rounds of the calls are over by `horizon`, and none of the calls is `close`.
  abbrev pub IsWithin : ℕ → Call F → Type 0
  IsWithin horizon (write s) = Unit
  IsWithin horizon (round now) = now ≤ horizon
  IsWithin horizon close = ⊥

  -- Rounds, one after the other.
  unfoldable pub rounds : ℕ → ℕ → Store F → Store F
  rounds zero now st = st
  rounds (suc n) now st = rounds n now (write_round raises now st)

  abbrev pub NeverRaises : Type 0
  NeverRaises = (t : Tables F) (s : Statement F) → raises t s ≡ false

  module _ {horizon : ℕ} (v : View F horizon) where
    -- What the read sees once the statements are executed.
    abbrev pub seen : List (Statement F) → Option v.V → Option v.V
    seen [] old = old
    seen (s ∷ ss) old = seen ss (override v.keep (v.written s) old)

    seen-append :
        (xs ys : List (Statement F)) (old : Option v.V)
        → seen (xs ++ ys) old ≡ seen ys (seen xs old)
    seen-append [] ys old = refl
    seen-append (x ∷ xs) ys old = seen-append xs ys _

    override-override :
        (later : Option v.V) (s : Statement F) (old : Option v.V)
        → override v.keep later (override v.keep (v.written s) old)
          ≡ override v.keep (elim later [ none ↦ v.written s | some b ↦ some b ]) old
    override-override none s old = refl
    override-override (some b) s old = refl

    pub seen-last_of :
        (ss : List (Statement F)) (old : Option v.V)
        → seen ss old ≡ override v.keep (last_of v.written ss) old
    unfolding last_of
    seen-last_of [] old = refl
    seen-last_of (s ∷ ss) old = seen-last_of ss _ ∙ override-override (last_of v.written ss) s old

    read-execute_batch :
        NeverRaises
        → (now : ℕ) (batch : List (Statement F)) (t : Tables F) → now ≤ horizon
        → v.read (execute_batch raises now batch t) ≡ seen batch (v.read t)
    unfolding execute_batch
    read-execute_batch ok now [] t h = refl
    read-execute_batch ok now (s ∷ batch) t h = rw (ok t s) (
        read-execute_batch ok now batch (execute now s t) h
        ∙ ap (seen batch) (v.read-execute now s t h))

    -- What the read will see once the queue is empty.
    abbrev pub settled : Store F → Option v.V
    settled st = seen st.queue (v.read st.tables)

    pub settled-write_round :
        NeverRaises
        → (now : ℕ) (st : Store F) → now ≤ horizon
        → settled (write_round raises now st) ≡ settled st
    unfolding write_round
    settled-write_round ok now st h = elim (Bool-cases st.closed) [
      | inl e ↦ rw e refl
      | inr e ↦ rw e (
          ap (seen (drop batch_size st.queue))
            (read-execute_batch ok now (take batch_size st.queue) st.tables h)
          ∙ (sym (seen-append (take batch_size st.queue) (drop batch_size st.queue) _)
              ∙ ap (λ ss. seen ss (v.read st.tables)) (take-drop batch_size st.queue)))
    ]

    settled-call :
        NeverRaises
        → (c : Call F) (st : Store F) → IsWithin horizon c
        → settled (call raises c st) ≡ seen (taken c st) (settled st)
    unfolding call taken enqueue
    settled-call ok (write s) st h = elim (Bool-cases (has_room raises st)) [
      | inl e ↦ rw e (seen-append st.queue (s ∷ []) (v.read st.tables))
      | inr e ↦ rw e refl
    ]
    settled-call ok (round now) st h = settled-write_round ok now st h
    settled-call ok close st h = absurd h

    pub settled-run :
        NeverRaises
        → (cs : List (Call F)) (st : Store F) → All (IsWithin horizon) cs
        → settled (run raises cs st) ≡ seen (accepted cs st) (settled st)
    unfolding run accepted
    settled-run ok [] st hs = refl
    settled-run ok (c ∷ cs) st (h, hs) =
        settled-run ok cs _ hs
        ∙ (ap (seen (accepted cs _)) (settled-call ok c st h)
            ∙ sym (seen-append (taken c st) (accepted cs _) (settled st)))
