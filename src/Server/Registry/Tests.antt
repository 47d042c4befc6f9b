-- ===== src/Server/Registry/Tests.antt =====
-- Requests to the endpoints of agents and telemetry.
use aiss_waf_server.Prelude.{ℕ, ◌≡◌, refl, true, none, some, List, [], ◌∷◌}
use aiss_waf_server.Prelude.Text.{Text, codes, text_eq}
use aiss_waf_server.Prelude.Dict
use aiss_waf_server.Prelude.Dict.{text_keys}
use aiss_waf_server.Server.Registry.Defs.{
  TelemetryEvent, Tables, RegisterRequest, refused, delete_agent, event_row, register_agent,
  is_named, set_agent_mode, touch,
}
use aiss_waf_server.Server.Registry.Requests.{
  Request, register, set_mode, remove, telemetry, updates, inspect, persist_inspect_event, step,
  run,
}
use aiss_waf_server.Server.Registry.Sound.{IsSound, run-IsSound}
use aiss_waf_server.Server.Registry.Stored.{
  persist_events-row, clashes, row_after, has_event, find_event,
}
use aiss_waf_server.Server.Registry.Defs.{persist_events}

abbrev empty : Tables ℕ
empty = record { agents = []; events = [] }

empty-IsSound : IsSound empty
empty-IsSound = record { modes = tt; named = tt }

abbrev edge : RegisterRequest
edge = record {
  agent_id = 7 ∷ [];
  hostname = 1 ∷ [];
  ip = none;
  server_type = [];
  version = none;
  api_key = [];
}

abbrev event : Text → TelemetryEvent ℕ
event id = record {
  id = id;
  client_ip = [];
  method = [];
  uri = 3 ∷ [];
  action = [];
  cve_id = none;
  rule_name = none;
  reason = none;
  scores = 0;
}

abbrev requests : List (Request ℕ)
requests =
    register 5 edge
    ∷ set_mode (7 ∷ []) (1 ∷ [])
    ∷ telemetry true (7 ∷ []) (event (1 ∷ []) ∷ event (2 ∷ []) ∷ [])
    ∷ remove (7 ∷ [])
    ∷ updates (7 ∷ []) 9
    ∷ inspect true true [] (5 ∷ []) 10 (event (3 ∷ []))
    ∷ []

run-IsSound_example : IsSound (run (λ k. k) requests empty)
run-IsSound_example = run-IsSound (λ k. k) requests empty empty-IsSound

-- An agent with events cannot be deleted.
delete_agent-refused : (delete_agent (7 ∷ []) (run (λ k. k) requests empty)).0 ≡ refused 500
unfolding persist_inspect_event run step delete_agent register_agent is_named set_agent_mode
    persist_events touch text_eq codes Dict.lookup Dict.insert
delete_agent-refused = refl

abbrev registered : Tables ℕ
registered = (register_agent (λ k. k) 5 edge empty).1

persist_events-row_example :
    (Dict.lookup
        (2 ∷ [])
        (persist_events true (7 ∷ []) (event (1 ∷ []) ∷ event (2 ∷ []) ∷ []) registered).events
      ≡ some (event_row (7 ∷ []) (event (2 ∷ []))))
    × ((persist_events true (7 ∷ []) (event (1 ∷ []) ∷ event (2 ∷ []) ∷ []) registered).agents
        ≡ registered.agents)
unfolding clashes row_after has_event find_event text_eq register_agent Dict.lookup Dict.insert
persist_events-row_example =
    persist_events-row true (7 ∷ []) (2 ∷ []) (event (1 ∷ []) ∷ event (2 ∷ []) ∷ []) registered
