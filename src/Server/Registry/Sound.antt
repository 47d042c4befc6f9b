-- ===== src/Server/Registry/Sound.antt =====
-- The tables of agents and events over any requests.
use aiss_waf_server.Prelude.{
  ℕ, ◌≡◌, refl, Bool, true, false, ◌&&◌, not, Option, none, some, List, [], ◌∷◌, length, is_some,
  is_empty, ltb, Bool-cases, inl, inr, arith,
}
use aiss_waf_server.Prelude.Text.{Text, codes, or_else, text_eq, text_eq_iff}
use aiss_waf_server.Prelude.Dict
use aiss_waf_server.Prelude.Dict.{
  Dict, AllValues, Holds, insert-AllValues, delete-AllValues, lookup-AllValues, lookup-insert,
  lookup-delete,
}
use aiss_waf_server.Prelude.Dict.{text_keys}
use aiss_waf_server.Server.Registry.Defs.{
  Agent, TelemetryEvent, EventRow, Tables, RegisterRequest, register_agent, list_agents,
  set_agent_mode, agent_heartbeat, delete_agent, ingest_telemetry, persist_events, touch, change,
  changed, insert_all, commit_rows, is_named, is_mode, new_agent, event_row,
}
use aiss_waf_server.Server.Inspect.Endpoint.{vercel_agent_id}
use aiss_waf_server.Server.Registry.Requests.{
  Request, register, list, set_mode, heartbeat, remove, telemetry, updates, inspect, seen_or_new,
  edge_agent, ensure_agent_registered, store_event, persist_inspect_event, accept, step, run,
}

-- The mode of every agent is one of the two.
abbrev pub HasMode : Agent → Type 0
HasMode a = is_mode a.mode ≡ true

-- The agent is there.
abbrev pub IsKnown : Dict Text Agent → Text → Type 0
IsKnown agents id = is_some (Dict.lookup id agents) ≡ true

insert-IsKnown :
    (k : Text) (a : Agent) (agents : Dict Text Agent) (id : Text)
    → IsKnown agents id
    → IsKnown (Dict.insert k a agents) id
insert-IsKnown k a agents id h =
    rw (lookup-insert k id a agents)
      (elim (Bool-cases (text_keys.beq k id)) [ inl e ↦ rw e refl | inr e ↦ rw e h ])

delete-IsKnown :
    (id j : Text) (agents : Dict Text Agent)
    → text_eq j id ≡ false
    → IsKnown agents j
    → IsKnown (Dict.delete id agents) j
delete-IsKnown id j agents h k =
    ground (arith, lookup-delete id j agents, text_eq_iff id j, text_eq_iff j id, h, k)

and-second : (a b c : Bool) → (a && (b && c)) ≡ true → b ≡ true
and-second a b c h = ground (arith, h)

not-and : (a b : Bool) → not (a && b) ≡ false → b ≡ true
not-and a b h = ground (arith, h)

edge-HasMode :
    (source_app : Text) (now : ℕ) (found : Option Agent)
    → Holds HasMode found
    → HasMode (seen_or_new source_app now found)
unfolding seen_or_new edge_agent is_mode codes text_eq
edge-HasMode source_app now none h = refl
edge-HasMode source_app now (some a) h = h

module _ {E : Type 0} where
  -- The agents have modes, and every event names an agent that there is.
  pub record IsSound (t : Tables E) : Type 0 where
    pub modes : AllValues HasMode t.agents
    pub named : AllValues (λ row. IsKnown t.agents row.agent_id) t.events

  AllValues-map :
      (P Q : EventRow E → Type 0) (d : Dict Text (EventRow E))
      → ((row : EventRow E) → P row → Q row)
      → AllValues P d
      → AllValues Q d
  AllValues-map P Q [] f hs = tt
  AllValues-map P Q (x ∷ d) f (h, hs) = (f x.1 h, AllValues-map P Q d f hs)

  -- A new row for an agent, with a mode.
  put-IsSound :
      (t : Tables E) (k : Text) (a : Agent)
      → HasMode a
      → IsSound t
      → IsSound (record t { agents = Dict.insert k a t.agents })
  put-IsSound t k a h o = record {
    modes = insert-AllValues HasMode k a t.agents h o.modes;
    named = AllValues-map _ _ t.events (λ row. insert-IsKnown k a t.agents row.agent_id) o.named;
  }

  changed-IsSound :
      (agent_id : Text) (f : Agent → Agent) (found : Option Agent) (t : Tables E)
      → ((a : Agent) → HasMode a → HasMode (f a))
      → Holds HasMode found
      → IsSound t
      → IsSound (changed agent_id f found t).1
  unfolding changed
  changed-IsSound agent_id f none t h k o = o
  changed-IsSound agent_id f (some a) t h k o = put-IsSound t agent_id (f a) (h a k) o

  change-IsSound :
      (agent_id : Text) (f : Agent → Agent) (t : Tables E)
      → ((a : Agent) → HasMode a → HasMode (f a))
      → IsSound t
      → IsSound (change agent_id f t).1
  unfolding change
  change-IsSound agent_id f t h o =
      changed-IsSound agent_id f (Dict.lookup agent_id t.agents) t h
        (lookup-AllValues HasMode agent_id t.agents o.modes) o

  register_agent-IsSound :
      (hash : Text → Text) (now : ℕ) (req : RegisterRequest) (t : Tables E)
      → IsSound t
      → IsSound (register_agent hash now req t).1
  unfolding register_agent new_agent is_mode codes text_eq
  register_agent-IsSound hash now req t o =
      elim (Bool-cases (is_some (Dict.lookup req.agent_id t.agents))) [
        | inl e ↦ rw e o
        | inr e ↦ rw e (put-IsSound t req.agent_id (new_agent hash now req) refl o)
      ]

  set_agent_mode-IsSound :
      (agent_id mode : Text) (t : Tables E) → IsSound t → IsSound (set_agent_mode agent_id mode t).1
  unfolding set_agent_mode
  set_agent_mode-IsSound agent_id mode t o = elim (Bool-cases (is_mode mode)) [
    | inl e ↦ rw e (change-IsSound agent_id (λ a. record a { mode = mode }) t (λ a h. e) o)
    | inr e ↦ rw e o
  ]

  delete-named :
      (id : Text) (agents : Dict Text Agent) (events : Dict Text (EventRow E))
      → is_named id events ≡ false
      → AllValues (λ row. IsKnown agents row.agent_id) events
      → AllValues (λ row. IsKnown (Dict.delete id agents) row.agent_id) events
  unfolding is_named
  delete-named id agents [] h hs = tt
  delete-named id agents ((j, row) ∷ events) h (k, ks) = (
    delete-IsKnown id row.agent_id agents (ground (arith, h)) k,
    delete-named id agents events (ground (arith, h)) ks,
  )

  delete_agent-IsSound :
      (agent_id : Text) (t : Tables E) → IsSound t → IsSound (delete_agent agent_id t).1
  unfolding delete_agent
  delete_agent-IsSound id t o = elim (Bool-cases (is_some (Dict.lookup id t.agents))) [
    | inr e ↦ rw e o
    | inl e ↦ rw e (elim (Bool-cases (is_named id t.events)) [
      | inl n ↦ rw n o
      | inr n ↦ rw n (record {
        modes = delete-AllValues HasMode id t.agents o.modes;
        named = delete-named id t.agents t.events n o.named;
      })
    ])
  ]

  insert_all-named :
      (P : EventRow E → Type 0) (agent_id : Text) (events : List (TelemetryEvent E))
      (rows : Dict Text (EventRow E))
      → ((ev : TelemetryEvent E) → P (event_row agent_id ev))
      → AllValues P rows
      → Holds (AllValues P) (insert_all agent_id events rows)
  unfolding insert_all
  insert_all-named P agent_id [] rows f hs = hs
  insert_all-named P agent_id (ev ∷ events) rows f hs =
      elim (Bool-cases (is_some (Dict.lookup ev.id rows))) [
        | inl e ↦ rw e tt
        | inr e ↦ rw e (
            insert_all-named P agent_id events _ f
              (insert-AllValues P ev.id (event_row agent_id ev) rows (f ev) hs))
      ]

  stored-IsSound :
      (t : Tables E) (stored : Option (Dict Text (EventRow E)))
      → Holds (AllValues (λ row. IsKnown t.agents row.agent_id)) stored
      → IsSound t
      → IsSound (commit_rows stored t)
  unfolding commit_rows
  stored-IsSound t none h o = o
  stored-IsSound t (some rows) h o = record { modes = o.modes; named = h }

  persist_events-IsSound :
      (commits : Bool) (agent_id : Text) (events : List (TelemetryEvent E)) (t : Tables E)
      → IsSound t
      → IsSound (persist_events commits agent_id events t)
  unfolding persist_events event_row
  persist_events-IsSound commits agent_id [] t o = o
  persist_events-IsSound commits agent_id (ev ∷ events) t o =
      elim (Bool-cases (not (commits && is_some (Dict.lookup agent_id t.agents)))) [
        | inl e ↦ rw e o
        | inr e ↦ rw e (
            stored-IsSound t (insert_all agent_id (ev ∷ events) t.events)
              (insert_all-named _ agent_id (ev ∷ events) t.events (λ x. not-and commits _ e)
                o.named)
              o)
      ]

  ensure_agent_registered-IsSound :
      (reads : Bool) (source_app : Text) (now : ℕ) (t : Tables E)
      → IsSound t
      → IsSound (ensure_agent_registered reads source_app now t).0
  unfolding ensure_agent_registered
  ensure_agent_registered-IsSound true source_app now t o =
      put-IsSound t source_app (seen_or_new source_app now (Dict.lookup source_app t.agents))
        (edge-HasMode source_app now (Dict.lookup source_app t.agents)
          (lookup-AllValues HasMode source_app t.agents o.modes))
        o
  ensure_agent_registered-IsSound false source_app now t o = o

  store_event-IsSound :
      (commits : Bool) (ev : TelemetryEvent E) (t : Tables E) (x : Tables E × Text)
      → IsSound t
      → IsSound x.0
      → IsSound (store_event commits ev t x)
  unfolding store_event event_row
  store_event-IsSound commits ev t (u, agent_id) o p =
      let known = is_some (Dict.lookup agent_id u.agents) in
      let free = not (is_some (Dict.lookup ev.id u.events)) in
      elim (Bool-cases (commits && (known && free))) [
        | inl e ↦ rw e (record {
          modes = p.modes;
          named =
              insert-AllValues (λ row. IsKnown u.agents row.agent_id) ev.id _ u.events
                (and-second commits known free e) p.named;
        })
        | inr e ↦ rw e o
      ]

  step-IsSound :
      (hash : Text → Text) (r : Request E) (t : Tables E) → IsSound t → IsSound (step hash r t)
  unfolding step list_agents agent_heartbeat accept ingest_telemetry touch persist_inspect_event
  step-IsSound hash (register now req) t o = register_agent-IsSound hash now req t o
  step-IsSound hash list t o = o
  step-IsSound hash (set_mode agent_id mode) t o = set_agent_mode-IsSound agent_id mode t o
  step-IsSound hash (heartbeat agent_id now) t o = change-IsSound agent_id _ t (λ a h. h) o
  step-IsSound hash (remove agent_id) t o = delete_agent-IsSound agent_id t o
  step-IsSound hash (telemetry commits agent_id events) t o =
      elim (Bool-cases (ltb 1000 (length events))) [
        | inl e ↦ rw e o
        | inr e ↦ rw e (persist_events-IsSound commits agent_id events t o)
      ]
  step-IsSound hash (inspect reads commits source_app api_actor now ev) t o =
      let id = or_else source_app (or_else api_actor vercel_agent_id) in
      store_event-IsSound commits ev t (ensure_agent_registered reads id now t) o
        (ensure_agent_registered-IsSound reads id now t o)
  step-IsSound hash (updates agent_id now) t o = elim (Bool-cases (is_empty agent_id)) [
    | inl e ↦ rw e o
    | inr e ↦ rw e (change-IsSound agent_id _ t (λ a h. h) o)
  ]

  -- Over any requests to the agents, telemetry and updates endpoints and any verdicts that are stored
  -- for the inspection endpoint, the mode of every agent stays one of the two, and every event names an agent
  -- that is registered.
  pub run-IsSound :
      (hash : Text → Text) (rs : List (Request E)) (t : Tables E)
      → IsSound t
      → IsSound (run hash rs t)
  unfolding run
  run-IsSound hash [] t o = o
  run-IsSound hash (r ∷ rs) t o = run-IsSound hash rs (step hash r t) (step-IsSound hash r t o)
