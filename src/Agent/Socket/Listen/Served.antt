-- ===== src/Agent/Socket/Listen/Served.antt =====
-- What becomes of the connections that the accept loop hands to the pool.
use aiss_waf_server.Prelude.{
  ℕ, ◌≡◌, refl, sym, ap, ◌∙◌, Bool, true, false, not, List, [], ◌∷◌, ◌++◌, map, All, All-append,
  length,
}
use mathlib.Core.List.{append_assoc, append-nil, map-append}
use aiss_waf_server.Agent.Floats.{Floats}
use aiss_waf_server.Agent.Socket.{Recv, Response, Service, handle_connection}
use aiss_waf_server.Agent.Socket.Accounts.{handle_connection-responds}
use aiss_waf_server.Agent.Socket.Listen.{
  Accepting, connection, timed_out, os_error, Event, check, accept, work, stop, Server, start,
  end_loop, submit, on_accept, on_check, on_return, handle_all, work_on, step, run,
}

module _ (fl : Floats) (sv : Service fl) (timeout : ℕ)
    (up : (r : Response fl) → sv.sendall r ≡ true) where
  abbrev pub Answered : Type 0
  Answered = List Recv × List (Response fl)

  abbrev pub connection_of : Answered → List Recv
  connection_of x = x.0

  abbrev pub IsAnswered : Answered → Type 0
  IsAnswered x = length x.1 ≡ 1

  record IsServed (s : Server fl sv timeout) : Type 0 where
    kept : s.accepted ≡ map connection_of s.answered ++ s.waiting
    each : All IsAnswered s.answered
    ended : s.raised ≡ not s.looping

  -- The first connection that waits is handled.
  handled :
      (rs : List Recv) (waiting : List (List Recv)) (s : Server fl sv timeout)
      → s.waiting ≡ rs ∷ waiting
      → IsServed s
      → let (stats, responses) = handle_connection fl sv timeout rs s.stats in
        IsServed (record s {
          waiting = waiting;
          answered = s.answered ++ ((rs, responses) ∷ []);
          stats = stats;
        })
  handled rs waiting s w h =
      let x : Answered = (rs, (handle_connection fl sv timeout rs s.stats).1) in
      record {
        kept =
            h.kept
            ∙ (ap (λ l. map connection_of s.answered ++ l) w
                ∙ (sym (append_assoc (map connection_of s.answered) (rs ∷ []) waiting)
                    ∙ ap (λ l. l ++ waiting) (sym (map-append connection_of s.answered (x ∷ [])))));
        each =
            All-append IsAnswered s.answered (x ∷ []) h.each
              (handle_connection-responds fl sv timeout up rs s.stats, tt);
        ended = h.ended;
      }

  work_on-IsServed :
      (waiting : List (List Recv)) (s : Server fl sv timeout)
      → s.waiting ≡ waiting
      → IsServed s
      → IsServed (work_on fl sv timeout waiting s)
  unfolding work_on
  work_on-IsServed [] s w h = h
  work_on-IsServed (rs ∷ waiting) s w h = handled rs waiting s w h

  handle_all-IsServed :
      (waiting : List (List Recv)) (s : Server fl sv timeout)
      → s.waiting ≡ waiting
      → IsServed s
      → IsServed (handle_all fl sv timeout waiting s)
        × ((handle_all fl sv timeout waiting s).waiting ≡ [])
  unfolding handle_all
  handle_all-IsServed [] s w h = (h, w)
  handle_all-IsServed (rs ∷ waiting) s w h =
      handle_all-IsServed waiting _ refl (handled rs waiting s w h)

  end_loop-IsServed : (s : Server fl sv timeout) → IsServed s → IsServed (end_loop fl sv timeout s)
  unfolding end_loop
  end_loop-IsServed s h = record { kept = h.kept; each = h.each; ended = refl }

  submit-IsServed :
      (shut : Bool) (rs : List Recv) (s : Server fl sv timeout)
      → IsServed s
      → IsServed (submit fl sv timeout shut rs s)
  unfolding submit
  submit-IsServed true rs s h = end_loop-IsServed s h
  submit-IsServed false rs s h = record {
    kept =
        ap (λ l. l ++ (rs ∷ [])) h.kept
        ∙ append_assoc (map connection_of s.answered) s.waiting (rs ∷ []);
    each = h.each;
    ended = h.ended;
  }

  on_accept-IsServed :
      (a : Accepting) (s : Server fl sv timeout)
      → IsServed s
      → IsServed (on_accept fl sv timeout a s)
  unfolding on_accept
  on_accept-IsServed (connection rs) s h = submit-IsServed s.shut rs s h
  on_accept-IsServed timed_out s h = record { kept = h.kept; each = h.each; ended = h.ended }
  on_accept-IsServed os_error s h = end_loop-IsServed s h

  on_return-IsServed :
      (accepting : Bool) (a : Accepting) (s : Server fl sv timeout)
      → IsServed s
      → IsServed (on_return fl sv timeout accepting a s)
  unfolding on_return
  on_return-IsServed true a s h = on_accept-IsServed a s h
  on_return-IsServed false a s h = h

  on_check-IsServed :
      (looping accepting running : Bool) (s : Server fl sv timeout)
      → IsServed s
      → IsServed (on_check fl sv timeout looping accepting running s)
  unfolding on_check
  on_check-IsServed true false true s h = record { kept = h.kept; each = h.each; ended = h.ended }
  on_check-IsServed true false false s h = end_loop-IsServed s h
  on_check-IsServed true true running s h = h
  on_check-IsServed false accepting running s h = h

  stopped-IsServed :
      (s : Server fl sv timeout)
      → IsServed s
      → IsServed (step fl sv timeout stop s) × ((step fl sv timeout stop s).waiting ≡ [])
  unfolding step
  stopped-IsServed s h =
      handle_all-IsServed s.waiting (record s { running = false; shut = true }) refl
        (record { kept = h.kept; each = h.each; ended = h.ended })

  step-IsServed :
      (e : Event) (s : Server fl sv timeout) → IsServed s → IsServed (step fl sv timeout e s)
  unfolding step
  step-IsServed check s h = on_check-IsServed s.looping s.accepting s.running s h
  step-IsServed (accept a) s h = on_return-IsServed s.accepting a s h
  step-IsServed work s h = work_on-IsServed s.waiting s refl h
  step-IsServed stop s h = (stopped-IsServed s h).0

  run-IsServed :
      (es : List Event) (s : Server fl sv timeout) → IsServed s → IsServed (run fl sv timeout es s)
  unfolding run
  run-IsServed [] s h = h
  run-IsServed (e ∷ es) s h = run-IsServed es (step fl sv timeout e s) (step-IsServed e s h)

  -- Where the connections can be written: after any events and a stop, the connections that were
  -- handed to the pool are the answered ones, begun in that order, each with exactly one response; and before
  -- the stop as after it, the accept loop has ended exactly if `start` has raised an exception.
  pub run-served :
      (es : List Event)
      → let s = run fl sv timeout es (start fl sv timeout) in
        let s' = step fl sv timeout stop s in
        (s'.accepted ≡ map connection_of s'.answered)
        × All IsAnswered s'.answered
        × (s.raised ≡ not s.looping)
        × (s'.raised ≡ not s'.looping)
  unfolding start
  run-served es =
      let h =
        run-IsServed es (start fl sv timeout) (record { kept = refl; each = tt; ended = refl }) in
      let s = run fl sv timeout es (start fl sv timeout) in
      let (h', none_waits) = stopped-IsServed s h in
      let done = map connection_of (step fl sv timeout stop s).answered in
      (h'.kept ∙ (ap (λ l. done ++ l) none_waits ∙ append-nil done), h'.each, h.ended, h'.ended)
