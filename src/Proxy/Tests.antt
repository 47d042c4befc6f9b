-- ===== src/Proxy/Tests.antt =====
-- Requests through waf-proxy/main.py.
use aiss_waf_server.Prelude.{ℕ, zero, suc, ◌≡◌, refl, ◌↔◌, true, none, some, [], ◌∷◌, is_some}
use aiss_waf_server.Prelude.Text.{Text, codes, text_eq, elem, lower, strip_bytes}
use aiss_waf_server.Prelude.Dict
use aiss_waf_server.Prelude.Dict.{text_keys}
use aiss_waf_server.Proxy.Defs.{
  Settings, Request, Question, Loaded, refused, loaded, value, missing, Verdict, Connection, failed,
  connected, chunk, Outgoing, Backend, answered, hop_by_hop,
}
use aiss_waf_server.Proxy.Handle.{
  handle, read_verdict, consult, outgoing_of, register_agent, status,
}
use aiss_waf_server.Proxy.Headers.{client_header, own_header, last_value}
use aiss_waf_server.Proxy.Forwarded.{LetsPass, handle-outgoing}

abbrev settings : Settings
settings = record {
  backend_url = codes "http://app/";
  backend_host = codes "app";
  backend_scheme = codes "http";
}

abbrev spoofing : Request
unfolding codes
spoofing = record {
  method = codes "GET";
  path = codes "/a";
  query_string = [];
  rel_url = codes "/a";
  remote = none;
  content_type = none;
  headers = (codes "x-waf-verdict", codes "TRUSTED") ∷ [];
  body = [];
}

abbrev blocking : Verdict ℕ
blocking = record {
  action = value (codes "BLOCK");
  reason = missing;
  tier = value 1;
  cve_id = missing;
  rule_name = missing;
  ml_score = missing;
  latency_ms = missing;
}

abbrev loads : Text → Loaded ℕ
loads [] = refused []
loads (c ∷ s) = loaded blocking

abbrev silent : Question → Connection
silent q = connected []

abbrev backend : Outgoing → Backend
backend o = answered 200 [] []

-- The client's spelling of the header passes beside the proxy's.
handle-outgoing_example :
    ((is_some (handle 0 (λ t. t) loads silent settings backend [] spoofing).outgoing ≡ true)
      ↔ LetsPass settings backend [] spoofing (read_verdict 0 (consult 0 loads (connected []))))
    × (is_some (handle 0 (λ t. t) loads (λ q. failed []) settings backend [] spoofing).outgoing
        ≡ true)
    × (Dict.lookup (codes "x-waf-verdict") (outgoing_of settings spoofing).headers
        ≡ some (codes "TRUSTED"))
unfolding codes client_header own_header last_value text_eq elem hop_by_hop lower
handle-outgoing_example =
    handle-outgoing settings backend [] spoofing 0 (λ t. t) loads silent (codes "x-waf-verdict") []

handle_blocked :
    status
      (handle 0
        (λ t. t)
        loads
        (λ q. connected (chunk (b'{' ∷ 10 ∷ []) ∷ []))
        settings
        backend
        []
        spoofing).response
    ≡ 403
unfolding handle codes status text_eq strip_bytes
handle_blocked = refl

register_agent_third :
    register_agent
      (λ n. elim n [ zero ↦ none | suc m ↦ elim m [ zero ↦ some 500 | suc k ↦ some 409 ] ])
    ≡ some 2
unfolding register_agent
register_agent_third = refl
