-- ===== src/Deployed/Tests.antt =====
-- The proxy before the agent at concrete requests.
use aiss_waf_server.Prelude.{
  ℕ, ◌≡◌, refl, true, if◌then◌else◌, Option, none, some, [], ◌∷◌, ◌++◌, map,
}
use aiss_waf_server.Prelude.Text.{Text, contains, starts_with}
use aiss_waf_server.Agent.Pipeline.{block, Verdict}
use aiss_waf_server.Agent.Socket.{no_stats, Response, answer, Service}
use aiss_waf_server.Agent.Samples
use aiss_waf_server.Agent.Samples.{runtime, floats, store, pipeline}
use aiss_waf_server.Proxy.Defs.{
  Settings, Request, not_dict, loaded, Outgoing, Backend, answered, question,
}
use aiss_waf_server.Proxy.Handle.{block_page, outgoing_of, handle, relay, event_of}
use aiss_waf_server.Deployed.{Wire, IsCarried, seen, agent_socket, told, blocks}
use aiss_waf_server.Deployed.Enforced.{decision, handle-enforced}
use aiss_waf_server.Deployed.Guarded.{agent, must_block, handle-guarded}

abbrev settings : Settings
settings = record { backend_url = 104 ∷ []; backend_host = []; backend_scheme = [] }

abbrev backend : Outgoing → Backend
backend o = answered 200 [] []

abbrev request : Request
request = record {
  method = 71 ∷ [];
  path = 33 ∷ [];
  query_string = [];
  rel_url = 33 ∷ [];
  remote = none;
  content_type = none;
  headers = [];
  body = [];
}

-- The socket carries one byte at a time.
abbrev silent : Wire floats
silent = record {
  dumps_question = λ q. b'{' ∷ q.uri ++ (b'}' ∷ []);
  dumps_response = λ r. b'{' ∷ b'}' ∷ [];
  loads = λ t. not_dict;
  millis = λ n. n;
  cut = map (λ c. c ∷ []);
}

-- A proxy that reads one response.
abbrev wire : Response floats → Wire floats
wire r = record silent { loads = λ t. loaded (seen floats silent r) }

abbrev verdict : Verdict floats
verdict = record {
  action = block;
  tier = 1;
  cve_id = some (67 ∷ []);
  rule_name = none;
  reason = 82 ∷ [];
  ml_score = 0;
  latency_ms = 3;
  sha256 = none;
}

-- An agent that blocks in time.
abbrev service : Service floats
service = record {
  Req = Text;
  parse = λ t. some t;
  check = λ r. some (verdict, 5);
  sendall = λ r. true;
}

abbrev answered_in_time : Wire floats
answered_in_time = wire (answer verdict 5)

service-IsCarried :
    IsCarried floats answered_in_time service
      (question (λ t. t) [] request)
      (b'{' ∷ 33 ∷ b'}' ∷ 10 ∷ [])
      (told floats 10 (some (verdict, 5)))
unfolding question told contains starts_with seen
service-IsCarried = record {
  question_line = refl;
  question_parses = refl;
  question_pieces = refl;
  response_line = refl;
  response_loads = refl;
  response_pieces = refl;
  response_pieces_full = (refl, (refl, (refl, tt)));
}

handle-enforced_example :
    let o : Option (Verdict floats × ℕ) = some (verdict, 5) in
    let d = decision floats answered_in_time service 10 (λ r. refl) 0 (told floats 10 o) in
    let h =
      handle 0
        (λ t. t)
        answered_in_time.loads
        (agent_socket floats answered_in_time service 10 no_stats)
        settings
        backend
        []
        request in
    (h.response ≡ (
      if blocks floats 10 o then block_page d else relay (backend (outgoing_of settings request))))
    × (h.outgoing ≡ (if blocks floats 10 o then none else some (outgoing_of settings request)))
    × (h.event ≡ some (event_of [] request d))
handle-enforced_example =
    handle-enforced floats answered_in_time service 10 (λ r. refl) 0 no_stats (λ t. t) settings
      backend [] request (b'{' ∷ 33 ∷ b'}' ∷ 10 ∷ []) service-IsCarried

abbrev guard : Service floats
guard = agent runtime floats store pipeline [] 5 10 5 (λ t. some Samples.request) (λ r. true)

-- What the agent answers to the request.
abbrev verdict_sent : Response floats
verdict_sent = told floats 10 (guard.check Samples.request)

guard-IsCarried :
    IsCarried floats
      (wire verdict_sent)
      guard
      (question (λ t. t) [] request)
      Samples.request
      verdict_sent
unfolding question told contains starts_with seen
guard-IsCarried = record {
  question_line = refl;
  question_parses = refl;
  question_pieces = refl;
  response_line = refl;
  response_loads = refl;
  response_pieces = refl;
  response_pieces_full = (refl, (refl, (refl, tt)));
}

handle-guarded_example :
    (handle 0
      (λ t. t)
      (wire verdict_sent).loads
      (agent_socket floats (wire verdict_sent) guard 10 no_stats)
      settings
      backend
      []
      request).outgoing
    ≡ (if must_block runtime floats store pipeline [] 5 10 5 Samples.request
        then none
        else some (outgoing_of settings request))
handle-guarded_example =
    handle-guarded runtime floats store pipeline [] 5 10 5 (λ t. some Samples.request)
      (wire verdict_sent) 0 no_stats (λ t. t) settings backend [] request Samples.request
      guard-IsCarried
