-- ===== src/Server/Gateway/Verified.antt =====
-- What the verification of the audit log says of the whole server.
use aiss_waf_server.Prelude.{
  ℕ, ◌<◌, ◌≤◌, ◌≡◌, refl, sym, ap, ◌∙◌, Bool, Option, none, some, List, [], ◌∷◌, ◌++◌, length,
  arith, true, All, All-append, ltb,
}
use aiss_waf_server.Audit
use aiss_waf_server.Audit.{
  Library, Partial, Row, AuditRequest, append_to_chain, intact, verify_chain, load_last_chain_hash,
}
use aiss_waf_server.Audit.Chain.{IsReadBack}
use aiss_waf_server.Audit.History
use aiss_waf_server.Audit.History.{
  append, restart, happen, history, AreLater, fresh, verify_chain-history,
}
use aiss_waf_server.Server.Gateway.System.{
  Event, arrive, write, reboot, purge, reset, pick, Deployment, System, write_picked, step, run,
  start,
}

module _ {S : Type 0} (d : Deployment S) where
  abbrev written :
      Option (Partial × List Partial) → ℕ → Bool → List (Audit.History.Event d.lib d.secret)
  written none now db_works = []
  written (some (e, rest)) now db_works = append e now db_works ∷ []

  -- What the audit sees of an event.
  abbrev seen : Event → System d → List (Audit.History.Event d.lib d.secret)
  seen (arrive a) s = []
  seen (write i now db_works) s = written (pick i s.process.pending) now db_works
  seen (reboot now readable) s = restart now readable ∷ []
  seen (purge days now) s = Audit.History.purge days now ∷ []
  seen (reset now commits) s = Audit.History.reset now commits ∷ []

  all_seen : List Event → System d → List (Audit.History.Event d.lib d.secret)
  all_seen [] s = []
  all_seen (e ∷ es) s = seen e s ++ all_seen es (step d e s)

  -- The events that touch the log are later and later.
  abbrev pub AreOrdered : ℕ → List Event → Type 0
  AreOrdered last [] = Unit
  AreOrdered last (arrive a ∷ es) = AreOrdered last es
  AreOrdered last (write i now db_works ∷ es) = (last < now) × AreOrdered now es
  AreOrdered last (reboot now readable ∷ es) = (last < now) × AreOrdered now es
  AreOrdered last (purge days now ∷ es) = (last < now) × AreOrdered now es
  AreOrdered last (reset now commits ∷ es) = (last < now) × AreOrdered now es

  -- A new process can read the table, and a purge is refused since its days are fewer than 180.
  abbrev pub IsHarmless : Event → Type 0
  IsHarmless (arrive a) = Unit
  IsHarmless (write i now db_works) = Unit
  IsHarmless (reboot now readable) = readable ≡ true
  IsHarmless (purge days now) = ltb days 180 ≡ true
  IsHarmless (reset now commits) = Unit

  history-append :
      (t : Audit.State) (xs ys : List (Audit.History.Event d.lib d.secret))
      → history d.lib d.secret t (xs ++ ys)
        ≡ history d.lib d.secret (history d.lib d.secret t xs) ys
  unfolding history
  history-append t [] ys = refl
  history-append t (x ∷ xs) ys = history-append (happen d.lib d.secret t x) xs ys

  write_picked-audit :
      (o : Option (Partial × List Partial)) (now : ℕ) (db_works : Bool) (s : System d)
      → (write_picked d o now db_works s).audit
        ≡ history d.lib d.secret s.audit (written o now db_works)
  unfolding write_picked history happen
  write_picked-audit none now db_works s = refl
  write_picked-audit (some (e, rest)) now db_works s = refl

  step-audit :
      (e : Event) (s : System d) → (step d e s).audit ≡ history d.lib d.secret s.audit (seen e s)
  unfolding step history happen
  step-audit (arrive a) s = refl
  step-audit (write i now db_works) s = write_picked-audit (pick i s.process.pending) now db_works s
  step-audit (reboot now readable) s = refl
  step-audit (purge days now) s = refl
  step-audit (reset now commits) s = refl

  run-audit :
      (es : List Event) (s : System d)
      → (run d es s).audit ≡ history d.lib d.secret s.audit (all_seen es s)
  unfolding run all_seen history
  run-audit [] s = refl
  run-audit (e ∷ es) s =
      run-audit es (step d e s)
      ∙ (ap (λ t. history d.lib d.secret t (all_seen es (step d e s))) (step-audit e s)
          ∙ sym (history-append s.audit (seen e s) (all_seen es (step d e s))))

  AreLater-weaken :
      (a b : ℕ) (es : List (Audit.History.Event d.lib d.secret))
      → a ≤ b
      → AreLater d.lib d.secret b es
      → AreLater d.lib d.secret a es
  AreLater-weaken a b [] le h = tt
  AreLater-weaken a b (e ∷ es) le (lt, h) = (omega arith, h)

  written-AreLater :
      (o : Option (Partial × List Partial)) (last now : ℕ) (db_works : Bool)
      (es : List (Audit.History.Event d.lib d.secret))
      → last < now
      → AreLater d.lib d.secret now es
      → AreLater d.lib d.secret last (written o now db_works ++ es)
  written-AreLater none last now db_works es lt h = AreLater-weaken last now es (omega arith) h
  written-AreLater (some (e, rest)) last now db_works es lt h = (lt, h)

  all_seen-AreLater :
      (last : ℕ) (es : List Event) (s : System d)
      → AreOrdered last es
      → AreLater d.lib d.secret last (all_seen es s)
  unfolding all_seen
  all_seen-AreLater last [] s h = tt
  all_seen-AreLater last (arrive a ∷ es) s h = all_seen-AreLater last es (step d (arrive a) s) h
  all_seen-AreLater last (write i now db_works ∷ es) s (lt, h) =
      let e = write i now db_works in
      written-AreLater (pick i s.process.pending) last now db_works (all_seen es (step d e s)) lt
        (all_seen-AreLater now es (step d e s) h)
  all_seen-AreLater last (reboot now readable ∷ es) s (lt, h) =
      (lt, all_seen-AreLater now es (step d (reboot now readable) s) h)
  all_seen-AreLater last (purge days now ∷ es) s (lt, h) =
      (lt, all_seen-AreLater now es (step d (purge days now) s) h)
  all_seen-AreLater last (reset now commits ∷ es) s (lt, h) =
      (lt, all_seen-AreLater now es (step d (reset now commits) s) h)

  written-IsHarmless :
      (o : Option (Partial × List Partial)) (now : ℕ) (db_works : Bool)
      → All (Audit.History.IsHarmless d.lib d.secret) (written o now db_works)
  written-IsHarmless none now db_works = tt
  written-IsHarmless (some x) now db_works = (tt, tt)

  seen-IsHarmless :
      (e : Event) (s : System d)
      → IsHarmless e
      → All (Audit.History.IsHarmless d.lib d.secret) (seen e s)
  seen-IsHarmless (arrive a) s h = tt
  seen-IsHarmless (write i now db_works) s h =
      written-IsHarmless (pick i s.process.pending) now db_works
  seen-IsHarmless (reboot now readable) s h = (h, tt)
  seen-IsHarmless (purge days now) s h = (h, tt)
  seen-IsHarmless (reset now commits) s h = (h, tt)

  all_seen-IsHarmless :
      (es : List Event) (s : System d)
      → All IsHarmless es
      → All (Audit.History.IsHarmless d.lib d.secret) (all_seen es s)
  unfolding all_seen
  all_seen-IsHarmless [] s h = tt
  all_seen-IsHarmless (e ∷ es) s (h, hs) =
      All-append (Audit.History.IsHarmless d.lib d.secret) (seen e s) (all_seen es (step d e s))
        (seen-IsHarmless e s h) (all_seen-IsHarmless es (step d e s) hs)

  -- Where the database gives times back in the ISO form in which they were sealed: whatever the
  -- requests, the order in which their entries are written, the writes that fail, the resets and the
  -- restarts, where a new process can read the table, a purge is refused, and what touches the log is
  -- at later and later times, the verification of the audit log reports that all its rows are intact.
  pub run-verified :
      IsReadBack d.lib d.secret
      → (es : List Event) (state : S) → All IsHarmless es
      → AreOrdered 0 es
      → let table = (run d es (start d state)).audit.table in
        verify_chain d.lib d.secret table ≡ intact (length table)
  unfolding start
  run-verified read_back es state ok h =
      rw (run-audit es (start d state))
        (verify_chain-history d.lib d.secret read_back (all_seen es (start d state))
          (all_seen-IsHarmless es (start d state) ok) (all_seen-AreLater 0 es (start d state) h)).0
