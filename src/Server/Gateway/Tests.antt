-- ===== src/Server/Gateway/Tests.antt =====
-- The theorems on the whole server at concrete requests.
use Prim.Native.String.{String}
use aiss_waf_server.Prelude.{
  ℕ, ◌+◌, ◌≡◌, refl, ap, ◌∙◌, true, false, ◌&&◌, Option, none, some, List, [], ◌∷◌, ◌++◌, All, inl,
  inr, Bool-cases, length, str_eq, eq_iff, is_some, arith,
}
use aiss_waf_server.Prelude.Text.{codes, starts_with}
use aiss_waf_server.Prelude.Dict
use aiss_waf_server.Prelude.Dict.{string_eq}
use aiss_waf_server.RateLimit.{new_rate_limits}
use aiss_waf_server.Audit.{AuditRequest, intact, verify_chain}
use aiss_waf_server.Server.Gateway.Headers.{Headers, Response}
use aiss_waf_server.Server.Gateway.Stack.{Cors, Arrival, is_cors, Process, serve}
use aiss_waf_server.Server.Gateway.Traced.{Traces, recorded, admitted, serve-recorded}
use aiss_waf_server.Server.Gateway.Policy.{Reads, policy}
use aiss_waf_server.Server.Gateway.Secured.{expected, serve-policy}
use aiss_waf_server.Server.Gateway.System.{
  Event, arrive, write, reboot, purge, reset, Deployment, run, start,
}
use aiss_waf_server.Server.Gateway.Verified.{run-verified}
use aiss_waf_server.Server.Gateway.Provenance.{IsGenuine, run-genuine}

allow_origin-other :
    (name : String) (h : Headers)
    → is_cors name ≡ false
    → Dict.lookup name (Dict.insert "access-control-allow-origin" (7 ∷ []) h) ≡ Dict.lookup name h
unfolding is_cors starts_with codes
allow_origin-other name h e = elim (Bool-cases (str_eq "access-control-allow-origin" name)) [
  | inl same ↦
      let q : is_cors "access-control-allow-origin" ≡ false =
        ap is_cors ((eq_iff "access-control-allow-origin" name).0 same) ∙ e in
      cc
  | inr other ↦ Dict.lookup-insert "access-control-allow-origin" name (7 ∷ []) h ∙ rw other
]

-- It answers no request itself.
abbrev cors : Cors
cors = record {
  preflight = λ r. none;
  decorate = λ r h. Dict.insert "access-control-allow-origin" (7 ∷ []) h;
  decorate-other = λ r name h e. allow_origin-other name h e;
}

-- Routes that count the requests, and set a header that the policy overrides.
abbrev routes : AuditRequest → ℕ → Option Response × ℕ
routes r n = (some (record { status = 200; headers = ("server", 9 ∷ []) ∷ [] }), n + 1)

abbrev arrival : Arrival
arrival = record {
  request = record {
    headers = [];
    client_host = some (7 ∷ []);
    method = [];
    path = 47 ∷ [];
    query = [];
  };
  uuid = 1 ∷ [];
  uuid' = 2 ∷ [];
  now = 5;
  wall = 100;
  elapsed_ms = 3;
}

abbrev process : Process routes cors
process = record { limits = new_rate_limits 60 1; state = 0; pending = [] }

serve-recorded_example :
    ((serve routes cors arrival process).1.pending ≡ [] ++ recorded routes cors arrival process)
    × All
        (Traces arrival (serve routes cors arrival process).0)
        (recorded routes cors arrival process)
serve-recorded_example = serve-recorded routes cors arrival process

serve-policy_example :
    Reads
      (expected
        (admitted routes cors arrival process && is_some (routes arrival.request process.state).0))
      (serve routes cors arrival process).0.headers
      policy
serve-policy_example = serve-policy routes cors arrival process refl

abbrev deployment : Deployment ℕ
deployment = record {
  routes = routes;
  cors = cors;
  lib = record {
    hmac_sha256 = λ k p. 0 ∷ p;
    isoformat = λ t. t ∷ [];
    read_isoformat = λ t. t ∷ [];
  };
  secret = [];
  limits = new_rate_limits 60 5;
}

-- Two requests whose entries are written in the other order, a restart, a refused purge and a
-- reset.
abbrev events : List Event
events =
    arrive arrival
    ∷ arrive (record arrival { uuid = 3 ∷ [] })
    ∷ write 1 10 true
    ∷ write 0 11 true
    ∷ arrive (record arrival { uuid = 4 ∷ [] })
    ∷ reboot 12 true
    ∷ purge 30 13
    ∷ reset 14 true
    ∷ []

run-verified_example :
    let table = (run deployment events (start deployment 0)).audit.table in
    verify_chain deployment.lib [] table ≡ intact (length table)
run-verified_example =
    run-verified deployment (λ t. refl) events 0
      (tt, (tt, (tt, (tt, (tt, (refl, (refl, (tt, tt))))))))
      (omega arith, (omega arith, (omega arith, (omega arith, (omega arith, tt)))))

run-genuine_example :
    let s = run deployment events (start deployment 0) in
    All (λ row. IsGenuine s.exchanges row.part) s.audit.table
run-genuine_example = run-genuine deployment events 0
