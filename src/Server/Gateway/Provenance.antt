-- ===== src/Server/Gateway/Provenance.antt =====
-- Where the rows of the audit log come from.
use aiss_waf_server.Prelude.{
  ℕ, ◌-◌, ◌*◌, ltb, Bool-cases, zero, suc, refl, Bool, true, false, Option, none, some, List, [],
  ◌∷◌, All, All-append, All-map, In, inl, inr,
}
use aiss_waf_server.Audit
use aiss_waf_server.Audit.{Partial, Row, keep_from, purge_old_entries, reset_chain, day}
use aiss_waf_server.Audit.History.{purged}
use aiss_waf_server.Audit.Rows.{append_to_chain-All}
use aiss_waf_server.Server.Gateway.Headers.{Response}
use aiss_waf_server.Server.Gateway.Stack.{Arrival, serve}
use aiss_waf_server.Server.Gateway.Traced.{Traces, recorded, serve-recorded}
use aiss_waf_server.Server.Gateway.System.{
  Event, arrive, write, reboot, purge, reset, put_back, pick, Deployment, System, write_picked,
  step, run, start,
}

abbrev pub Exchanges : Type 0
Exchanges = List (Arrival × Response)

-- The entry is that of a request of the list, with the answer that its client got.
abbrev pub IsGenuine : Exchanges → Partial → Type 0
IsGenuine xs e = (x : Arrival × Response) × In x xs × Traces x.0 x.1 e

IsGenuine-cons :
    (x : Arrival × Response) (xs : Exchanges) (e : Partial) → IsGenuine xs e → IsGenuine (x ∷ xs) e
IsGenuine-cons x xs e (y, m, t) = (y, inr m, t)

-- What is picked, and what is left.
abbrev Picked : (Partial → Type 0) → Option (Partial × List Partial) → Type 0
Picked P none = Unit
Picked P (some (e, rest)) = P e × All P rest

put_back-All :
    (P : Partial → Type 0) (e : Partial) (o : Option (Partial × List Partial))
    → P e
    → Picked P o
    → Picked P (put_back e o)
unfolding put_back
put_back-All P e none h p = tt
put_back-All P e (some (x, rest)) h (p, ps) = (p, (h, ps))

pick-All : (P : Partial → Type 0) (i : ℕ) (es : List Partial) → All P es → Picked P (pick i es)
unfolding pick
pick-All P i [] h = tt
pick-All P zero (e ∷ es) h = h
pick-All P (suc i) (e ∷ es) (h, hs) = put_back-All P e (pick i es) h (pick-All P i es hs)

module _ {S : Type 0} (d : Deployment S) where
  record IsTraced (s : System d) : Type 0 where
    waiting : All (IsGenuine s.exchanges) s.process.pending
    rows : All (λ row. IsGenuine s.exchanges row.part) s.audit.table

  write_picked-IsTraced :
      (o : Option (Partial × List Partial)) (now : ℕ) (db_works : Bool) (s : System d)
      → Picked (IsGenuine s.exchanges) o
      → IsTraced s
      → IsTraced (write_picked d o now db_works s)
  unfolding write_picked
  write_picked-IsTraced none now db_works s p h = h
  write_picked-IsTraced (some (e, rest)) now db_works s (p, ps) h = record {
    waiting = ps;
    rows =
        append_to_chain-All d.lib d.secret (IsGenuine s.exchanges) s.audit e now db_works p h.rows;
  }

  keep_from-All :
      (P : Partial → Type 0) (cutoff : ℕ) (table : List Row)
      → All (λ row. P row.part) table
      → All (λ row. P row.part) (keep_from cutoff table)
  unfolding keep_from
  keep_from-All P cutoff [] h = tt
  keep_from-All P cutoff (r ∷ rows) (h, hs) = elim (Bool-cases (ltb r.timestamp cutoff)) [
    | inl e ↦ rw e (keep_from-All P cutoff rows hs)
    | inr e ↦ rw e (h, keep_from-All P cutoff rows hs)
  ]

  purge_All :
      (days now : ℕ) (s : Audit.State) (P : Partial → Type 0)
      → All (λ row. P row.part) s.table
      → All (λ row. P row.part) (purged d.lib d.secret s (purge_old_entries days now s)).table
  unfolding purge_old_entries
  purge_All days now s P h = elim (Bool-cases (ltb days 180)) [
    | inl e ↦ rw e h
    | inr e ↦ rw e (keep_from-All P (now - days * day) s.table h)
  ]

  step-IsTraced : (e : Event) (s : System d) → IsTraced s → IsTraced (step d e s)
  unfolding step reset_chain
  step-IsTraced (arrive a) s h =
      let (pending, traces) = serve-recorded d.routes d.cors a s.process in
      let x : Arrival × Response = (a, (serve d.routes d.cors a s.process).0) in
      let wider = λ (e : Partial) (g : IsGenuine s.exchanges e). IsGenuine-cons x s.exchanges e g in
      record {
        waiting = rw pending (
            All-append (IsGenuine (x ∷ s.exchanges)) s.process.pending
              (recorded d.routes d.cors a s.process)
              (All-map (IsGenuine s.exchanges) (IsGenuine (x ∷ s.exchanges)) s.process.pending wider
                h.waiting)
              (All-map (Traces a x.1) (IsGenuine (x ∷ s.exchanges))
                (recorded d.routes d.cors a s.process) (λ e t. (x, inl refl, t)) traces));
        rows =
            All-map (λ (row : Row). IsGenuine s.exchanges row.part)
              (λ row. IsGenuine (x ∷ s.exchanges) row.part) s.audit.table
              (λ row g. wider row.part g) h.rows;
      }
  step-IsTraced (write i now db_works) s h =
      write_picked-IsTraced (pick i s.process.pending) now db_works s
        (pick-All (IsGenuine s.exchanges) i s.process.pending h.waiting) h
  step-IsTraced (reboot now readable) s h = record { waiting = tt; rows = h.rows }
  step-IsTraced (purge days now) s h = record {
    waiting = h.waiting;
    rows = purge_All days now s.audit (IsGenuine s.exchanges) h.rows;
  }
  step-IsTraced (reset now true) s h = record { waiting = h.waiting; rows = tt }
  step-IsTraced (reset now false) s h = h

  run-IsTraced : (es : List Event) (s : System d) → IsTraced s → IsTraced (run d es s)
  unfolding run
  run-IsTraced [] s h = h
  run-IsTraced (e ∷ es) s h = run-IsTraced es (step d e s) (step-IsTraced e s h)

  -- Over any requests, writes, restarts, purges and resets: each row of the audit log is the entry of a request that
  -- was served, with the status of the response that the client got, whose X-Request-ID is the row's
  -- id.
  pub run-genuine :
      (es : List Event) (state : S)
      → let s = run d es (start d state) in
        All (λ row. IsGenuine s.exchanges row.part) s.audit.table
  unfolding start
  run-genuine es state = (run-IsTraced es (start d state) (record { waiting = tt; rows = tt })).rows
