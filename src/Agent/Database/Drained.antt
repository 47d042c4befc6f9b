-- ===== src/Agent/Database/Drained.antt =====
-- The writer thread of agent/db/duckdb_store.py over whole runs: the queue is bounded, enough rounds
-- empty it, and what the reads then give.
use aiss_waf_server.Prelude.{
  ℕ, zero, suc, ◌-◌, ◌*◌, ◌≤◌, ◌≡◌, refl, sym, ◌∙◌, ap, Bool, true, false, Option, none, some, List,
  [], ◌∷◌, if◌then◌else◌, length, length-append, length-drop, ltb→lt, arith, All, Bool-cases, inl,
  inr,
}
use aiss_waf_server.Prelude.Text.{Text}
use aiss_waf_server.Agent.Database.{
  Tables, Statement, Store, Call, write, round, close, queue_size, batch_size, has_room, enqueue,
  write_round, new_store, call, run, get_ip_verdict, get_file_hash, get_config, is_memory,
  read_from,
}
use aiss_waf_server.Agent.Database.Reads.{
  View, override, live, ip_written, hash_written, config_written, ip_view, hash_view, config_view,
}
use aiss_waf_server.Agent.Database.Writes.{
  IsWithin, NeverRaises, accepted, rounds, last_of, seen, settled, settled-run, settled-write_round,
  seen-last_of,
}

override-none : {A : Type 0} (o : Option A) → override (λ _. true) o none ≡ o
override-none none = refl
override-none (some a) = refl

module _ {F : Type 0} (raises : Tables F → Statement F → Bool) where
  -- The writer runs and the queue is within its size.
  pub record IsOpen (st : Store F) : Type 0 where
    pub open_lem : st.closed ≡ false
    pub bounded : length st.queue ≤ queue_size

  call-IsOpen :
      (horizon : ℕ) (c : Call F) (st : Store F)
      → IsWithin raises horizon c
      → IsOpen st
      → IsOpen (call raises c st)
  unfolding call enqueue write_round has_room
  call-IsOpen horizon (write s) st h o = elim (Bool-cases (has_room raises st)) [
    | inl e ↦ rw e (record {
      open_lem = o.open_lem;
      bounded = omega (arith, ltb→lt _ _ e, length-append st.queue (s ∷ []));
    })
    | inr e ↦ rw e o
  ]
  call-IsOpen horizon (round now) st h o = rw o.open_lem (record {
    open_lem = refl;
    bounded = omega (arith, o.bounded, length-drop batch_size st.queue);
  })
  call-IsOpen horizon close st h o = absurd h

  run-IsOpen :
      (horizon : ℕ) (cs : List (Call F)) (st : Store F)
      → All (IsWithin raises horizon) cs
      → IsOpen st
      → IsOpen (run raises cs st)
  unfolding run
  run-IsOpen horizon [] st hs o = o
  run-IsOpen horizon (c ∷ cs) st (h, hs) o =
      run-IsOpen horizon cs _ hs (call-IsOpen horizon c st h o)

  length-write_round :
      (now : ℕ) (st : Store F)
      → st.closed ≡ false
      → (length (write_round raises now st).queue ≡ length st.queue - batch_size)
        × ((write_round raises now st).closed ≡ false)
  unfolding write_round
  length-write_round now st e = rw e (length-drop batch_size st.queue, refl)

  length-rounds :
      (n now : ℕ) (st : Store F)
      → st.closed ≡ false
      → length (rounds raises n now st).queue ≡ length st.queue - n * batch_size
  unfolding rounds
  length-rounds zero now st e = omega arith
  length-rounds (suc n) now st e =
      let step = length-write_round now st e in
      let rest : length (rounds raises (suc n) now st).queue
          ≡ length (write_round raises now st).queue - n * batch_size =
        length-rounds n now _ step.1 in
      omega (arith, step.0, rest)

  -- What the read sees is not changed by rounds that are over by the horizon.
  settled-rounds :
      {horizon : ℕ} (v : View F horizon)
      → NeverRaises raises
      → (n now : ℕ) (st : Store F) → now ≤ horizon
      → settled raises v (rounds raises n now st) ≡ settled raises v st
  unfolding rounds
  settled-rounds v ok zero now st h = refl
  settled-rounds v ok (suc n) now st h =
      settled-rounds v ok n now _ h ∙ settled-write_round raises v ok now st h

  new_store-IsOpen : IsOpen (new_store raises)
  unfolding new_store
  new_store-IsOpen = record { open_lem = refl; bounded = omega arith }

  -- Enough rounds: 50 batches of 200 are the 10000 statements of a full queue.
  abbrev pub drained : ℕ → List (Call F) → Store F
  drained now cs = rounds raises 50 now (run raises cs (new_store raises))

  length-zero : {A : Type 0} (xs : List A) → length xs ≡ 0 → xs ≡ []
  length-zero [] h = refl
  length-zero (x ∷ xs) h = ground (arith, h)

  -- From a new store, after any calls before `close`, whatever statements raise, 50 rounds of the
  -- writer empty the queue.
  pub run-drained :
      (horizon now : ℕ) (cs : List (Call F))
      → All (IsWithin raises horizon) cs
      → (drained now cs).queue ≡ []
  run-drained horizon now cs hs =
      let o = run-IsOpen horizon cs (new_store raises) hs new_store-IsOpen in
      length-zero _ (
        omega
          (arith, o.bounded, length-rounds 50 now (run raises cs (new_store raises)) o.open_lem))

  read-drained :
      {now : ℕ} (v : View F now)
      → NeverRaises raises
      → (cs : List (Call F)) → All (IsWithin raises now) cs
      → v.read (drained now cs).tables
        ≡ override v.keep
            (last_of v.written (accepted raises cs (new_store raises)))
            (v.read (new_store raises).tables)
  unfolding new_store
  read-drained {now} v ok cs hs =
      sym (ap (λ q. seen raises v q (v.read (drained now cs).tables)) (run-drained now now cs hs))
      ∙ (settled-rounds v ok 50 now (run raises cs (new_store raises)) (omega arith)
          ∙ (settled-run raises v ok cs (new_store raises) hs
              ∙ seen-last_of raises v (accepted raises cs (new_store raises)) _))

  -- From a new store, where nothing raises and the rounds of the calls are over by `now`: after any
  -- calls before `close`, once 50 rounds have written the queue, each read gives what the last
  -- accepted write of its key stored, a verdict of an address only if it has not expired; with the
  -- path ":memory:" each read raises instead.
  pub run-reads :
      NeverRaises raises
      → (now : ℕ) (cs : List (Call F)) → All (IsWithin raises now) cs
      → (db_path ip sha key : Text)
      → (read_from db_path (get_ip_verdict now ip) (drained now cs) ≡ (
          if is_memory db_path
          then none
          else some (
              override
                (live now)
                (last_of (ip_written ip) (accepted raises cs (new_store raises)))
                none)))
        × (read_from db_path (get_file_hash sha) (drained now cs) ≡ (
            if is_memory db_path
            then none
            else some (last_of (hash_written sha) (accepted raises cs (new_store raises)))))
        × (read_from db_path (get_config key) (drained now cs) ≡ (
            if is_memory db_path
            then none
            else some (last_of (config_written key) (accepted raises cs (new_store raises)))))
  unfolding new_store get_ip_verdict get_file_hash get_config read_from
  run-reads ok now cs hs db_path ip sha key = (
    ap (λ r. if is_memory db_path then none else some r) (read-drained (ip_view now ip) ok cs hs),
    ap (λ r. if is_memory db_path then none else some r)
        (read-drained (hash_view now sha) ok cs hs ∙ override-none _),
    ap (λ r. if is_memory db_path then none else some r)
        (read-drained (config_view now key) ok cs hs ∙ override-none _),
  )
