-- ===== src/Server/Registry/Stored.antt =====
-- What becomes of a batch of telemetry, server/app/routers/telemetry.py.
use aiss_waf_server.Prelude.{
  ◌≡◌, refl, sym, ap, ◌∙◌, Bool, true, false, ◌&&◌, ◌||◌, not, Option, none, some, List, [], ◌∷◌,
  is_some, Bool-cases, inl, inr, if◌then◌else◌, arith,
}
use aiss_waf_server.Prelude.Text.{Text, text_eq, text_eq_iff}
use aiss_waf_server.Prelude.Dict
use aiss_waf_server.Prelude.Dict.{Dict, lookup-insert}
use aiss_waf_server.Prelude.Dict.{text_keys}
use aiss_waf_server.Server.Registry.Defs.{
  TelemetryEvent, EventRow, Tables, insert_all, persist_events, event_row, commit_rows,
}

module _ {E : Type 0} where
  -- An id that no event of the batch has.
  unfoldable pub has_event : Text → List (TelemetryEvent E) → Bool
  unfolding text_eq
  has_event id [] = false
  has_event id (ev ∷ events) = text_eq ev.id id || has_event id events

  -- Some id is taken, by a row or by an event before it in the batch.
  unfoldable pub clashes : List (TelemetryEvent E) → Dict Text (EventRow E) → Bool
  unfolding has_event
  clashes [] rows = false
  clashes (ev ∷ events) rows =
      is_some (Dict.lookup ev.id rows) || has_event ev.id events || clashes events rows

  -- The event of an id in a batch.
  unfoldable pub find_event : Text → List (TelemetryEvent E) → Option (TelemetryEvent E)
  unfolding text_eq
  find_event id [] = none
  find_event id (ev ∷ events) = if text_eq ev.id id then some ev else find_event id events

  abbrev pub row_from : Text → Option (TelemetryEvent E) → Option (EventRow E) → Option (EventRow E)
  row_from agent_id none old = old
  row_from agent_id (some ev) old = some (event_row agent_id ev)

  -- The row of an id, with the batch's rows before those of the table.
  unfoldable pub row_after :
      Text → Text → List (TelemetryEvent E) → Dict Text (EventRow E) → Option (EventRow E)
  unfolding find_event
  row_after agent_id id events rows = row_from agent_id (find_event id events) (Dict.lookup id rows)

  clashes-insert :
      (ev : TelemetryEvent E) (row : EventRow E) (events : List (TelemetryEvent E))
      (rows : Dict Text (EventRow E))
      → clashes events (Dict.insert ev.id row rows)
        ≡ (has_event ev.id events || clashes events rows)
  unfolding clashes has_event
  clashes-insert ev row [] rows = refl
  clashes-insert ev row (x ∷ events) rows = ground (
    arith,
    text_eq_iff ev.id x.id,
    text_eq_iff x.id ev.id,
    lookup-insert ev.id x.id row rows,
    clashes-insert ev row events rows,
  )

  find_event-missing :
      (id : Text) (events : List (TelemetryEvent E))
      → has_event id events ≡ false
      → find_event id events ≡ none
  unfolding has_event find_event
  find_event-missing id [] h = refl
  find_event-missing id (ev ∷ events) h = ground (arith, h, find_event-missing id events)

  -- One event more, whose id no later event has.
  inserted-apart :
      (agent_id id : Text) (ev : TelemetryEvent E) (rows : Dict Text (EventRow E))
      → text_eq ev.id id ≡ false
      → Dict.lookup id (Dict.insert ev.id (event_row agent_id ev) rows) ≡ Dict.lookup id rows
  inserted-apart agent_id id ev rows e =
      lookup-insert ev.id id (event_row agent_id ev) rows ∙ (rw e refl)

  row_after-insert :
      (agent_id id : Text) (ev : TelemetryEvent E) (events : List (TelemetryEvent E))
      (rows : Dict Text (EventRow E))
      → has_event ev.id events ≡ false
      → row_after agent_id id events (Dict.insert ev.id (event_row agent_id ev) rows)
        ≡ row_after agent_id id (ev ∷ events) rows
  unfolding row_after find_event
  row_after-insert agent_id id ev events rows h = elim (Bool-cases (text_eq ev.id id)) [
    | inl e ↦
        ap
          (λ o.
            row_from agent_id o (Dict.lookup id (Dict.insert ev.id (event_row agent_id ev) rows)))
          (ap (λ i. find_event i events) (sym ((text_eq_iff ev.id id).0 e))
            ∙ find_event-missing ev.id events h)
        ∙ (lookup-insert ev.id id (event_row agent_id ev) rows ∙ (rw e refl))
    | inr e ↦
        ap (row_from agent_id (find_event id events)) (inserted-apart agent_id id ev rows e)
        ∙ (rw e refl)
  ]

  -- The row of an id after all insertions, where they are not refused.
  abbrev lookup_done : Text → Option (Dict Text (EventRow E)) → Option (Option (EventRow E))
  lookup_done id none = none
  lookup_done id (some rows) = some (Dict.lookup id rows)

  insert_all-row :
      (agent_id id : Text) (events : List (TelemetryEvent E)) (rows : Dict Text (EventRow E))
      → lookup_done id (insert_all agent_id events rows)
        ≡ (if clashes events rows then none else some (row_after agent_id id events rows))
  unfolding insert_all clashes row_after find_event
  insert_all-row agent_id id [] rows = refl
  insert_all-row agent_id id (ev ∷ events) rows =
      elim (Bool-cases (is_some (Dict.lookup ev.id rows))) [
        | inl e ↦ rw e refl
        | inr e ↦ rw e (
            insert_all-row agent_id id events (Dict.insert ev.id (event_row agent_id ev) rows)
            ∙ (elim (Bool-cases (has_event ev.id events)) [
              | inl h ↦ rw (clashes-insert ev (event_row agent_id ev) events rows, h) refl
              | inr h ↦
                  rw (clashes-insert ev (event_row agent_id ev) events rows, h)
                    (ap (λ o. if clashes events rows then none else some o)
                      (row_after-insert agent_id id ev events rows h))
            ]))
      ]

  settle : Option (Option (EventRow E)) → Option (EventRow E) → Option (EventRow E)
  settle none old = old
  settle (some row) old = row

  commit_rows-row :
      (id : Text) (done : Option (Dict Text (EventRow E))) (t : Tables E)
      → (Dict.lookup id (commit_rows done t).events
          ≡ settle (lookup_done id done) (Dict.lookup id t.events))
        × ((commit_rows done t).agents ≡ t.agents)
  unfolding commit_rows settle
  commit_rows-row id none t = (refl, refl)
  commit_rows-row id (some rows) t = (refl, refl)

  settle-if :
      (taken : Bool) (row old : Option (EventRow E))
      → settle (if taken then none else some row) old ≡ (if not taken then row else old)
  unfolding settle
  settle-if true row old = refl
  settle-if false row old = refl

  if-same : (b : Bool) (row : Option (EventRow E)) → row ≡ (if b then row else row)
  if-same true row = refl
  if-same false row = refl

  guarded :
      (commits known clash : Bool) (row old : Option (EventRow E))
      → not (commits && known) ≡ false
      → (if not clash then row else old) ≡ (if commits && (known && not clash) then row else old)
  guarded true true clash row old h = refl
  guarded true false clash row old h = ground (arith, h)
  guarded false known clash row old h = ground (arith, h)

  refused-if :
      (commits known clash : Bool) (row old : Option (EventRow E))
      → not (commits && known) ≡ true
      → old ≡ (if commits && (known && not clash) then row else old)
  refused-if true true clash row old h = ground (arith, h)
  refused-if true false clash row old h = refl
  refused-if false known clash row old h = refl

  -- All or nothing: where the commit works, the agent is registered and no id is taken, by a row or
  -- twice in the batch, each event of the batch is the row of its id, and no other row has changed;
  -- else no row has changed. The agents are the same.
  pub persist_events-row :
      (commits : Bool) (agent_id id : Text) (events : List (TelemetryEvent E)) (t : Tables E)
      → (Dict.lookup id (persist_events commits agent_id events t).events ≡ (
          if commits && (is_some (Dict.lookup agent_id t.agents) && not (clashes events t.events))
          then row_after agent_id id events t.events
          else Dict.lookup id t.events))
        × ((persist_events commits agent_id events t).agents ≡ t.agents)
  unfolding persist_events clashes row_after find_event
  persist_events-row commits agent_id id [] t = (if-same _ (Dict.lookup id t.events), refl)
  persist_events-row commits agent_id id (ev ∷ events) t =
      let known = is_some (Dict.lookup agent_id t.agents) in
      let clash = clashes (ev ∷ events) t.events in
      let row = row_after agent_id id (ev ∷ events) t.events in
      elim (Bool-cases (not (commits && known))) [
        | inl e ↦ rw e (refused-if commits known clash row (Dict.lookup id t.events) e, refl)
        | inr e ↦
            let done = insert_all agent_id (ev ∷ events) t.events in
            rw e (
              (commit_rows-row id done t).0
                  ∙ (ap (λ o. settle o (Dict.lookup id t.events))
                        (insert_all-row agent_id id (ev ∷ events) t.events)
                      ∙ (settle-if clash row (Dict.lookup id t.events)
                          ∙ guarded commits known clash row (Dict.lookup id t.events) e)),
              (commit_rows-row id done t).1,
            )
      ]
