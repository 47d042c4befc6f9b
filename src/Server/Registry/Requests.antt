-- ===== src/Server/Registry/Requests.antt =====
-- The requests to the handlers of Server/Registry/Defs, with the background task of
-- server/app/routers/inspect.py that writes the same tables, and runs of them.
use aiss_waf_server.Prelude.{
  ℕ, Bool, true, false, ◌&&◌, not, Option, none, some, is_some, List, [], ◌∷◌, if◌then◌else◌,
}
use aiss_waf_server.Prelude.Text.{Text, codes, or_else}
use aiss_waf_server.Prelude.Dict
use aiss_waf_server.Prelude.Dict.{text_keys}
use aiss_waf_server.Server.Inspect.Endpoint.{vercel_agent_id}
use aiss_waf_server.Server.Registry.Defs.{
  Agent, event_row, TelemetryEvent, Tables, RegisterRequest, Reply, refused, answer, register_agent,
  list_agents, set_agent_mode, agent_heartbeat, delete_agent, ingest_telemetry, persist_events,
  touch,
}

pub data Request (E : Type 0) : Type 0 where
  register : ℕ → RegisterRequest → Request E
  list : Request E
  set_mode : (agent_id mode : Text) → Request E
  heartbeat : Text → ℕ → Request E
  remove : Text → Request E
  telemetry : (commits : Bool) (agent_id : Text) → List (TelemetryEvent E) → Request E
  updates : Text → ℕ → Request E
  inspect : (reads commits : Bool) (source_app api_actor : Text) → ℕ → TelemetryEvent E → Request E

-- A batch that is accepted is persisted, in the background.
unfoldable pub accept :
    {E : Type 0} → Bool → Text → Reply (ℕ × List (TelemetryEvent E)) → Tables E → Tables E
accept commits agent_id (refused status) t = t
accept commits agent_id (answer (count, events)) t = persist_events commits agent_id events t

unfoldable pub edge_agent : Text → ℕ → Agent
unfolding codes
edge_agent source_app now = record {
  hostname = source_app;
  ip = codes "vercel-edge";
  server_type = codes "vercel";
  version = codes "edge-middleware";
  mode = codes "enforce";
  api_key_hash = codes "vercel-middleware";
  last_seen = some now;
  last_cve_sync = none;
  created_at = now;
}

unfoldable pub seen_or_new : Text → ℕ → Option Agent → Agent
unfolding edge_agent
seen_or_new source_app now none = edge_agent source_app now
seen_or_new source_app now (some a) = record a { last_seen = some now }

module _ {E : Type 0} where
  -- `_ensure_agent_registered` on an id that is not empty; where it raises, nothing is registered.
  unfoldable pub ensure_agent_registered : (reads : Bool) → Text → ℕ → Tables E → Tables E × Text
  unfolding seen_or_new
  ensure_agent_registered true source_app now t = (
    record t {
      agents =
          Dict.insert source_app (seen_or_new source_app now (Dict.lookup source_app t.agents))
            t.agents;
    },
    source_app,
  )
  ensure_agent_registered false source_app now t = (t, vercel_agent_id)

  -- The commit, which is rolled back where the agent is not there, the id is taken, or it raises.
  unfoldable pub store_event :
      (commits : Bool) → TelemetryEvent E → Tables E → Tables E × Text → Tables E
  unfolding event_row
  store_event commits ev t (registered, agent_id) =
      if commits
        && (is_some (Dict.lookup agent_id registered.agents)
            && not (is_some (Dict.lookup ev.id registered.events)))
      then record registered {
        events = Dict.insert ev.id (event_row agent_id ev) registered.events;
      }
      else t

  -- `_persist_inspect_event`: the event is that of the request and its verdict.
  unfoldable pub persist_inspect_event :
      (reads commits : Bool) (source_app api_actor : Text)
      → ℕ
      → TelemetryEvent E
      → Tables E
      → Tables E
  unfolding ensure_agent_registered store_event
  persist_inspect_event reads commits source_app api_actor now ev t =
      store_event commits ev t (
        ensure_agent_registered reads (or_else source_app (or_else api_actor vercel_agent_id)) now
          t)

module _ {E : Type 0} (hash : Text → Text) where
  -- The tables after a request.
  unfoldable pub step : Request E → Tables E → Tables E
  unfolding accept ingest_telemetry
  step (register now req) t = (register_agent hash now req t).1
  step list t = (list_agents t).1
  step (set_mode agent_id mode) t = (set_agent_mode agent_id mode t).1
  step (heartbeat agent_id now) t = (agent_heartbeat agent_id now t).1
  step (remove agent_id) t = (delete_agent agent_id t).1
  step (telemetry commits agent_id events) t = accept commits agent_id (ingest_telemetry events) t
  step (updates agent_id now) t = touch agent_id now t
  step (inspect reads commits source_app api_actor now ev) t =
      persist_inspect_event reads commits source_app api_actor now ev t

  unfoldable pub run : List (Request E) → Tables E → Tables E
  run [] t = t
  run (r ∷ rs) t = run rs (step r t)
