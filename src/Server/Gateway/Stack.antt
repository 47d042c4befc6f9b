-- ===== src/Server/Gateway/Stack.antt =====
-- The middleware of server/app/main.py around the routes. The last one that is added runs first:
-- CORS, then the rate limit, the audit, the security headers and the routes.
use aiss_waf_server.Prelude.{
  ℕ, ◌≡◌, Bool, false, ◌||◌, Option, none, some, String, str_eq, List, [], ◌∷◌, ◌++◌,
}
use aiss_waf_server.Prelude.Text.{Text, codes, starts_with}
use aiss_waf_server.Prelude.Show.{show}
use aiss_waf_server.Prelude.Dict
use aiss_waf_server.Prelude.Dict.{Dict, string_eq}
use aiss_waf_server.RateLimit
use aiss_waf_server.RateLimit.{RateLimits, LimitType, auth, telemetry, global, dispatch}
use aiss_waf_server.Audit.{Partial, AuditRequest, partial_of}
use aiss_waf_server.Server.Gateway.Headers.{Headers, Response, set_all, secure}

-- The headers that belong to CORS.
unfoldable pub is_cors : String → Bool
unfolding codes
is_cors name = starts_with (codes name) (codes "access-control-") || str_eq name "vary"

-- Starlette's CORSMiddleware: it answers preflight requests itself, and sets headers of its own on
-- the other responses.
pub record Cors : Type 0 where
  pub preflight : AuditRequest → Option Response
  pub decorate : AuditRequest → Headers → Headers
  pub decorate-other :
      (r : AuditRequest) (name : String) (h : Headers)
      → is_cors name ≡ false
      → Dict.lookup name (decorate r h) ≡ Dict.lookup name h

-- A request as the server receives it: `uuid` and `uuid'` are the fresh ids of the audit and of the
-- security headers, `now` is the monotonic clock, `wall` the time in seconds.
pub record Arrival : Type 0 where
  pub request : AuditRequest
  pub uuid : Text
  pub uuid' : Text
  pub now : ℕ
  pub wall : ℕ
  pub elapsed_ms : ℕ

unfoldable pub type_name : LimitType → Text
unfolding codes
type_name auth = codes "auth"
type_name telemetry = codes "telemetry"
type_name global = codes "global"

-- The request as the rate limit reads it.
unfoldable pub limited : AuditRequest → RateLimit.Request
limited r = record { headers = r.headers; client_host = r.client_host; path = r.path }

-- The answer of the rate limit to its server: an exception becomes a plain 500.
unfoldable pub answer : RateLimit.Response (Option Response) → Option Response
unfolding codes set_all
answer RateLimit.server_error = none
answer (RateLimit.too_many type limit reset) = some (record {
  status = 429;
  headers =
      set_all
        (("retry-after", codes "60")
          ∷ ("x-ratelimit-limit", show limit)
          ∷ ("x-ratelimit-remaining", codes "0")
          ∷ ("x-ratelimit-reset", show reset)
          ∷ [])
        [];
})
answer (RateLimit.passed none limit remaining) = none
answer (RateLimit.passed (some r) limit remaining) = some (record r {
  headers =
      set_all (("x-ratelimit-limit", show limit) ∷ ("x-ratelimit-remaining", show remaining) ∷ [])
        r.headers;
})

module _ {S : Type 0} (routes : AuditRequest → S → Option Response × S) (cors : Cors) where
  -- AuditLogMiddleware.dispatch once the response is there: `pending` are the entries that wait for
  -- a thread of the pool.
  unfoldable pub hand_over : Option Partial → Response → List Partial → Response × List Partial
  hand_over none r pending = (r, pending)
  hand_over (some p) r pending =
      (record r { headers = Dict.insert "x-request-id" p.id r.headers }, pending ++ (p ∷ []))

  -- `none` is an exception of a route, which passes through the middleware.
  unfoldable pub inner :
      Arrival → Option Response × S → List Partial → Option Response × (S × List Partial)
  unfolding hand_over
  inner a (none, s) pending = (none, (s, pending))
  inner a (some r, s) pending =
      let r' = secure a.request.path a.uuid' a.request.headers r in
      let out = hand_over (partial_of a.request a.uuid r'.status a.elapsed_ms) r' pending in
      (some out.0, (s, out.1))

  unfoldable pub audited : Arrival → S × List Partial → Option Response × (S × List Partial)
  unfolding inner
  audited a (s, pending) = inner a (routes a.request s) pending

  unfoldable pub outward : Arrival → Option Response → Response
  outward a none = record { status = 500; headers = [] }
  outward a (some r) = record r { headers = cors.decorate a.request r.headers }

  -- What lives as long as the process, and the entries that wait.
  pub record Process : Type 0 where
    pub limits : RateLimits
    pub state : S
    pub pending : List Partial

  unfoldable pub back :
      Arrival
      → RateLimit.Response (Option Response) × RateLimits × (S × List Partial)
      → Response × Process
  unfolding answer outward
  back a out =
      (outward a (answer out.0), record { limits = out.1; state = out.2.0; pending = out.2.1 })

  -- Behind CORS.
  unfoldable pub limit : Arrival → Process → Response × Process
  unfolding audited back limited
  limit a p =
      back a
        (dispatch (λ _. audited a) p.limits (limited a.request) (p.state, p.pending) a.now a.wall)

  unfoldable pub serve_after : Option Response → Arrival → Process → Response × Process
  unfolding limit
  serve_after (some r) a p = (r, p)
  serve_after none a p = limit a p

  -- One request from the network to its answer.
  unfoldable pub serve : Arrival → Process → Response × Process
  unfolding serve_after
  serve a p = serve_after (cors.preflight a.request) a p
