-- ===== src/Server/Inspect/Tests.antt =====
-- The theorems on the inspection endpoint at one request.
use aiss_waf_server.Prelude.{refl, none, [], ◌∷◌}
use aiss_waf_server.Prelude.Text.{codes, ends_with, starts_with, before, lower}
use aiss_waf_server.Prelude.Dict.{text_keys}
use aiss_waf_server.Agent.Pipeline.{permit}
use aiss_waf_server.Agent.Samples.{runtime}
use aiss_waf_server.Server.Inspect.{
  InspectRequest, InspectVerdict, CveCache, is_static, static_exts, ends_with_any,
  build_scan_target,
}
use aiss_waf_server.Server.Inspect.Endpoint.{Tables, inspect_request}
use aiss_waf_server.Server.Inspect.Verdicts.{IsReported, tier_of, inspect_request-IsReported}

abbrev request : InspectRequest
request = record {
  method = [];
  uri = 33 ∷ [];
  query_string = [];
  client_ip = [];
  user_agent = [];
  body = [];
  headers = [];
  source_app = 5 ∷ [];
}

abbrev cache : CveCache
cache = record { entries = []; ts = 0 }

inspect_request-IsReported_example :
    IsReported request
      (tier_of runtime cache 5 (7 ∷ []) 3 request (build_scan_target runtime request))
      (inspect_request runtime cache 5 (7 ∷ []) 3 none request)
unfolding is_static static_exts ends_with_any ends_with starts_with before lower codes
inspect_request-IsReported_example =
    inspect_request-IsReported runtime cache 5 (7 ∷ []) 3 request refl

abbrev verdict : InspectVerdict
verdict = record {
  action = permit;
  tier = 0;
  cve_id = [];
  rule_name = [];
  reason = [];
  latency_ms = 3;
  request_id = 7 ∷ [];
}

abbrev tables : Tables
tables = record { agents = []; events = [] }
