-- ===== src/Server/Registry/Defs.antt =====
-- The handlers of server/app/routers/agents.py, telemetry.py and updates.py. A request holds the
-- database's lock until it is answered, so that each is one step. Who is let in is in Server/Auth.
use aiss_waf_server.Prelude.{
  ℕ, Bool, false, ◌&&◌, ◌||◌, not, Option, none, some, List, [], ◌∷◌, length, ltb, is_some,
  is_empty, if◌then◌else◌,
}
use aiss_waf_server.Prelude.Text.{Text, codes, text_eq}
use aiss_waf_server.Prelude.Dict
use aiss_waf_server.Prelude.Dict.{Dict}
use aiss_waf_server.Prelude.Dict.{text_keys}

pub record Agent : Type 0 where
  pub hostname : Text
  pub ip : Text
  pub server_type : Text
  pub version : Text
  pub mode : Text
  pub api_key_hash : Text
  pub last_seen : Option ℕ
  pub last_cve_sync : Option ℕ
  pub created_at : ℕ

-- An event of a batch; `E` is what else it has, and the texts that may be null are empty then.
pub record TelemetryEvent (E : Type 0) : Type 0 where
  pub id : Text
  pub client_ip : Text
  pub method : Text
  pub uri : Text
  pub action : Text
  pub cve_id : Option Text
  pub rule_name : Option Text
  pub reason : Option Text
  pub scores : E

-- A row of security_events.
pub record EventRow (E : Type 0) : Type 0 where
  pub agent_id : Text
  pub client_ip : Text
  pub method : Text
  pub uri : Text
  pub action : Text
  pub cve_id : Text
  pub rule_name : Text
  pub reason : Text
  pub scores : E

-- The tables agents and security_events, by primary key.
pub record Tables (E : Type 0) : Type 0 where
  pub agents : Dict Text Agent
  pub events : Dict Text (EventRow E)

-- The status of a refusal, or the answer.
pub data Reply (A : Type 0) : Type 0 where
  refused : ℕ → Reply A
  answer : A → Reply A

pub record RegisterRequest : Type 0 where
  pub agent_id : Text
  pub hostname : Text
  pub ip : Option Text
  pub server_type : Text
  pub version : Option Text
  pub api_key : Text

-- x or ""
abbrev pub or_empty : Option Text → Text
or_empty none = []
or_empty (some t) = t

unfoldable pub new_agent : (hash : Text → Text) → ℕ → RegisterRequest → Agent
unfolding codes
new_agent hash now req = record {
  hostname = req.hostname;
  ip = or_empty req.ip;
  server_type = req.server_type;
  version = or_empty req.version;
  mode = codes "shadow";
  api_key_hash = hash req.api_key;
  last_seen = none;
  last_cve_sync = none;
  created_at = now;
}

-- The newest first.
place : Text × Agent → List (Text × Agent) → List (Text × Agent)
place a [] = a ∷ []
place a (b ∷ rest) =
    let behind = place a rest in
    if ltb a.1.created_at b.1.created_at then b ∷ behind else a ∷ b ∷ rest

unfoldable pub by_created : Dict Text Agent → List (Text × Agent)
unfolding place
by_created [] = []
by_created (a ∷ rest) = place a (by_created rest)

unfoldable pub event_row : {E : Type 0} → Text → TelemetryEvent E → EventRow E
event_row agent_id ev = record {
  agent_id = agent_id;
  client_ip = ev.client_ip;
  method = ev.method;
  uri = ev.uri;
  action = ev.action;
  cve_id = or_empty ev.cve_id;
  rule_name = or_empty ev.rule_name;
  reason = or_empty ev.reason;
  scores = ev.scores;
}

-- Some event names the agent.
unfoldable pub is_named : {E : Type 0} → Text → Dict Text (EventRow E) → Bool
unfolding text_eq
is_named agent_id [] = false
is_named agent_id ((id, row) ∷ events) = text_eq row.agent_id agent_id || is_named agent_id events

abbrev pub max_batch_size : ℕ
max_batch_size = 1000

unfoldable pub is_mode : Text → Bool
unfolding codes text_eq
is_mode mode = text_eq mode (codes "enforce") || text_eq mode (codes "shadow")

abbrev pub Step : Type 0 → Type 0 → Type 0
Step E A = Tables E → Reply A × Tables E

module _ {E : Type 0} where
  unfoldable pub register_agent : (hash : Text → Text) → ℕ → RegisterRequest → Step E Agent
  unfolding new_agent
  register_agent hash now req t =
      if is_some (Dict.lookup req.agent_id t.agents) then (refused 409, t) else (
        answer (new_agent hash now req),
        record t { agents = Dict.insert req.agent_id (new_agent hash now req) t.agents },
      )

  unfoldable pub list_agents : Step E (List (Text × Agent))
  unfolding by_created
  list_agents t = (answer (by_created t.agents), t)

  -- A change of the agent's row, or 404.
  unfoldable pub changed : Text → (Agent → Agent) → Option Agent → Step E Agent
  changed agent_id f none t = (refused 404, t)
  changed agent_id f (some a) t =
      (answer (f a), record t { agents = Dict.insert agent_id (f a) t.agents })

  unfoldable pub change : Text → (Agent → Agent) → Step E Agent
  unfolding changed
  change agent_id f t = changed agent_id f (Dict.lookup agent_id t.agents) t

  unfoldable pub set_agent_mode : (agent_id mode : Text) → Step E Agent
  unfolding is_mode change
  set_agent_mode agent_id mode t =
      if is_mode mode then change agent_id (λ a. record a { mode = mode }) t else (refused 400, t)

  unfoldable pub agent_heartbeat : Text → ℕ → Step E Agent
  unfolding change
  agent_heartbeat agent_id now = change agent_id (λ a. record a { last_seen = some now })

  -- The foreign key of the events, which may not be null, refuses the deletion of an agent that some
  -- event names: an exception, which is a 500.
  unfoldable pub delete_agent : Text → Step E Unit
  unfolding is_named
  delete_agent agent_id t =
      if is_some (Dict.lookup agent_id t.agents)
      then if is_named agent_id t.events
        then (refused 500, t)
        else (answer tt, record t { agents = Dict.delete agent_id t.agents })
      else (refused 404, t)

  -- The background task that a batch schedules, with the number of accepted events.
  unfoldable pub ingest_telemetry : List (TelemetryEvent E) → Reply (ℕ × List (TelemetryEvent E))
  ingest_telemetry events =
      if ltb max_batch_size (length events) then refused 413 else answer (length events, events)

  -- The rows in turn; an id that is taken is refused by the primary key.
  unfoldable pub insert_all :
      Text → List (TelemetryEvent E) → Dict Text (EventRow E) → Option (Dict Text (EventRow E))
  unfolding event_row
  insert_all agent_id [] rows = some rows
  insert_all agent_id (ev ∷ events) rows =
      let rest = insert_all agent_id events (Dict.insert ev.id (event_row agent_id ev) rows) in
      if is_some (Dict.lookup ev.id rows) then none else rest

  unfoldable pub commit_rows : Option (Dict Text (EventRow E)) → Tables E → Tables E
  commit_rows none t = t
  commit_rows (some rows) t = record t { events = rows }

  -- One transaction: rolled back where a row is refused, by its id or because there is no such
  -- agent, or where the commit raises for another reason.
  unfoldable pub persist_events :
      (commits : Bool) (agent_id : Text) → List (TelemetryEvent E) → Tables E → Tables E
  unfolding insert_all commit_rows
  persist_events commits agent_id events t =
      if is_empty events || not (commits && is_some (Dict.lookup agent_id t.agents))
      then t
      else commit_rows (insert_all agent_id events t.events) t

  -- What the updates do to the agent that asks, if it is known.
  unfoldable pub touch : Text → ℕ → Tables E → Tables E
  unfolding change
  touch agent_id now t =
      if is_empty agent_id
      then t
      else (change agent_id (λ a. record a { last_seen = some now; last_cve_sync = some now }) t).1
