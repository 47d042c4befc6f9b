-- ===== src/Server/Inspect/Endpoint.antt =====
-- The handler of the endpoint and its background task, server/app/routers/inspect.py.
use aiss_waf_server.Prelude.{
  ℕ, Bool, Option, none, some, List, [], ◌∷◌, ◌++◌, is_some, if◌then◌else◌,
}
use aiss_waf_server.Prelude.Text.{Text, codes, or_else}
use aiss_waf_server.Prelude.Dict
use aiss_waf_server.Prelude.Dict.{text_keys}
use aiss_waf_server.Agent.Runtime.{Runtime}
use aiss_waf_server.Agent.Pipeline.{Action, permit, block}
use aiss_waf_server.Server.Inspect.{
  InspectRequest, InspectVerdict, CveCache, Match, is_static, build_scan_target,
  check_cve_signatures, check_tier2, check_tier3,
}

abbrev pub vercel_agent_id : Text
vercel_agent_id = codes "vercel-middleware"

pub record Agent : Type 0 where
  pub hostname : Text
  pub last_seen : ℕ

pub record Event : Type 0 where
  pub agent_id : Text
  pub client_ip : Text
  pub method : Text
  pub uri : Text
  pub verdict : InspectVerdict

-- The agents by id, and the security events by id.
pub record Tables : Type 0 where
  pub agents : Dict.Dict Text Agent
  pub events : Dict.Dict Text Event

-- A verdict and what it schedules: `_persist_inspect_event` with the request and the actor.
pub record Reply : Type 0 where
  pub verdict : InspectVerdict
  pub scheduled : List (InspectRequest × InspectVerdict)

touched : Text → ℕ → Option Agent → Agent
unfolding codes
touched source_app now none = record {
  hostname = or_else source_app (codes "vercel-edge");
  last_seen = now;
}
touched source_app now (some agent) = record agent { last_seen = now }

-- `reads` says that neither the query nor the flush raises.
unfoldable pub ensure_agent_registered : (reads : Bool) → Tables → Text → (now : ℕ) → Tables × Text
unfolding touched codes
ensure_agent_registered reads t source_app now =
    let agent_id = or_else source_app vercel_agent_id in
    if reads
    then (
      record t {
        agents =
            Dict.insert agent_id (touched source_app now (Dict.lookup agent_id t.agents)) t.agents;
      },
      agent_id,
    )
    else (t, vercel_agent_id)

abbrev pub insert_event : Text → Event → Tables → Tables
insert_event id e t = record t { events = Dict.insert id e t.events }

-- `commits` says that the commit does not raise. An id that is taken is refused by the primary
-- key; what is refused is rolled back.
unfoldable pub persist_inspect_event :
    (reads commits : Bool)
    → InspectRequest
    → InspectVerdict
    → (api_actor : Text) → (now : ℕ) → Tables
    → Tables
unfolding ensure_agent_registered codes
persist_inspect_event reads commits req v api_actor now t =
    let source_app = or_else req.source_app (or_else api_actor vercel_agent_id) in
    let (t', agent_id) = ensure_agent_registered reads t source_app now in
    if is_some (Dict.lookup v.request_id t.events)
    then t
    else if commits
    then insert_event v.request_id
        (record {
          agent_id = agent_id;
          client_ip = req.client_ip;
          method = req.method;
          uri = req.uri;
          verdict = v;
        })
        t'
    else t

module _ (rt : Runtime) (cache : CveCache) (now : ℕ) (request_id : Text) (latency : ℕ) where
  unfoldable pub verdict_of : Action → ℕ → Text → Text → Text → InspectVerdict
  verdict_of action tier cve_id rule_name reason = record {
    action = action;
    tier = tier;
    cve_id = cve_id;
    rule_name = rule_name;
    reason = reason;
    latency_ms = latency;
    request_id = request_id;
  }

  -- A verdict that the dashboard is to show.
  unfoldable pub reported : InspectRequest → InspectVerdict → Reply
  reported req v = record { verdict = v; scheduled = (req, v) ∷ [] }

  unfoldable pub after_tier2 : InspectRequest → Option (Match rt) → Reply
  unfolding verdict_of reported
  after_tier2 req (some m) = reported req (verdict_of block 3 [] m.rule_name m.reason)
  after_tier2 req none = reported req (verdict_of permit 0 [] [] [])

  unfoldable pub after_tier1 : InspectRequest → Text → Option (Match rt) → Reply
  unfolding verdict_of reported after_tier2
  after_tier1 req text (some m) = reported req (verdict_of block 2 [] m.rule_name m.reason)
  after_tier1 req text none = after_tier2 req (check_tier3 rt text)

  unfoldable pub inspect_text : InspectRequest → Text → Option (Match rt) → Reply
  unfolding verdict_of reported after_tier1
  inspect_text req text (some m) = reported req (verdict_of block 1 m.cve_id m.rule_name m.reason)
  inspect_text req text none = after_tier1 req text (check_tier2 rt text)

  -- `raised` is the text of an exception in the inspection, before a task is scheduled.
  unfoldable pub inspect_request : (raised : Option Text) → InspectRequest → Reply
  unfolding verdict_of inspect_text codes
  inspect_request (some exc) req = record {
    verdict = verdict_of permit 0 [] [] (codes "fail-open: " ++ exc);
    scheduled = [];
  }
  inspect_request none req =
      if is_static req.uri
      then record {
        verdict = verdict_of permit 0 [] [] (codes "Static asset — skipped");
        scheduled = [];
      }
      else (let text = build_scan_target rt req in
          inspect_text req text (check_cve_signatures rt cache now text))
