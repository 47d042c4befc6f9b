-- ===== src/Server/Gateway/Secured.antt =====
-- Which responses reach the client with the security headers.
use Prim.Native.String.{String}
use aiss_waf_server.Prelude.{
  ℕ, ◌+◌, ◌≡◌, refl, ◌∙◌, Bool, true, false, ◌&&◌, not, Option, none, some, List, [], ◌∷◌,
  if◌then◌else◌, is_some,
}
use aiss_waf_server.Prelude.Text.{Text, starts_with}
use aiss_waf_server.Prelude.Show.{show}
use aiss_waf_server.Prelude.Dict
use aiss_waf_server.Prelude.Dict.{string_eq}
use aiss_waf_server.RateLimit
use aiss_waf_server.RateLimit.{
  Limiter, RateLimits, LimitType, client_ip, limit_type, limiter_of, is_allowed, finish,
}
use aiss_waf_server.RateLimit.Dispatch.{dispatch-none, dispatch-some}
use aiss_waf_server.Audit.{Partial, AuditRequest, partial_of}
use aiss_waf_server.Server.Gateway.Headers.{Headers, Response, set_all, standard, identity, secure}
use aiss_waf_server.Server.Gateway.Stack.{
  Cors, Arrival, limited, is_cors, answer, Process, hand_over, inner, audited, outward, limit,
  serve,
}
use aiss_waf_server.Server.Gateway.Traced.{let_through, admitted, serve-passed}
use aiss_waf_server.Server.Gateway.Policy.{
  Reads, are_apart, not-left, &&-right, set_all-kept, with_id, policy, policy-id, set_value,
  secure-policy,
}

abbrev are_plain : List (String × Text) → Bool
are_plain [] = true
are_plain ((k, v) ∷ pairs) = not (is_cors k) && are_plain pairs

policy-plain : are_plain policy ≡ true
unfolding standard identity is_cors starts_with
policy-plain = refl

absent : (pairs : List (String × Text)) → Reads (λ _. none) [] pairs
unfolding Dict.lookup
absent [] = tt
absent (pair ∷ pairs) = (refl, absent pairs)

abbrev counters : Text → Text → List (String × Text)
counters limit remaining = ("x-ratelimit-limit", limit) ∷ ("x-ratelimit-remaining", remaining) ∷ []

policy-counters : (limit remaining : Text) → are_apart policy (counters limit remaining) ≡ true
unfolding standard identity
policy-counters limit remaining = refl

abbrev refusal : Text → Text → Text → Text → List (String × Text)
refusal retry limit remaining reset =
    ("retry-after", retry)
    ∷ ("x-ratelimit-limit", limit)
    ∷ ("x-ratelimit-remaining", remaining)
    ∷ ("x-ratelimit-reset", reset)
    ∷ []

policy-refusal :
    (retry limit remaining reset : Text)
    → are_apart policy (refusal retry limit remaining reset) ≡ true
unfolding standard identity
policy-refusal retry limit remaining reset = refl

-- Present with their values, or absent.
abbrev pub expected : Bool → String × Text → Option Text
expected answered pair = if answered then some pair.1 else none

module _ {S : Type 0} (routes : AuditRequest → S → Option Response × S) (cors : Cors) where
  decorated :
      (f : String × Text → Option Text) (r : AuditRequest) (h : Headers)
      (pairs : List (String × Text))
      → are_plain pairs ≡ true
      → Reads f h pairs
      → Reads f (cors.decorate r h) pairs
  decorated f r h [] plain reads = tt
  decorated f r h ((k, v) ∷ pairs) plain (read, reads) = (
    cors.decorate-other r k h (not-left (is_cors k) (are_plain pairs) plain) ∙ read,
    decorated f r h pairs (&&-right (not (is_cors k)) (are_plain pairs) plain) reads,
  )

  -- An answer of the routes, on its way out.
  counted :
      (a : Arrival) (r : Response) (l remaining : ℕ)
      → Reads set_value r.headers policy
      → Reads set_value
          (outward routes cors a (answer (RateLimit.passed (some r) l remaining))).headers
          policy
  unfolding outward answer
  counted a r l remaining h = decorated set_value a.request _ policy policy-plain (
      set_all-kept set_value (counters (show l) (show remaining)) policy r.headers
        (policy-counters (show l) (show remaining)) h)

  refused :
      (a : Arrival) (type : LimitType) (l reset : ℕ)
      → Reads
          (λ _. none)
          (outward routes cors a (answer (RateLimit.too_many type l reset))).headers
          policy
  unfolding outward answer
  refused a type l reset =
      decorated (λ _. none) a.request _ policy policy-plain
        (set_all-kept (λ _. none) (refusal _ (show l) _ (show reset)) policy []
          (policy-refusal _ (show l) _ (show reset)) (absent policy))

  handed :
      (o : Option Partial) (r : Response) (pending : List Partial)
      → Reads set_value r.headers policy
      → Reads set_value (hand_over routes cors o r pending).0.headers policy
  unfolding hand_over
  handed none r pending h = h
  handed (some e) r pending h =
      unfold set_all in set_all-kept set_value (with_id e.id) policy r.headers (policy-id e.id) h

  passed-policy :
      (a : Arrival) (o : Option Response) (s : S) (pending : List Partial) (l remaining : ℕ)
      → Reads
          (expected (is_some o))
          (outward routes cors a
            (answer (RateLimit.passed (inner routes cors a (o, s) pending).0 l remaining))).headers
          policy
  unfolding inner
  passed-policy a none s pending l remaining = unfold answer outward in absent policy
  passed-policy a (some r) s pending l remaining =
      let r' = secure a.request.path a.uuid' a.request.headers r in
      let found = partial_of a.request a.uuid r'.status a.elapsed_ms in
      counted a (hand_over routes cors found r' pending).0 l remaining
        (handed found r' pending (secure-policy a.request.path a.uuid' a.request.headers r))

  finish-policy :
      (a : Arrival) (p : Process routes cors) (type : LimitType) (res : (Bool × ℕ) × Limiter)
      → Reads
          (expected (res.0.0 && is_some (routes a.request p.state).0))
          (outward routes cors a (
            answer
              (finish
                (λ _. audited routes cors a)
                p.limits
                type
                (limited a.request)
                (p.state, p.pending)
                a.wall
                res).0)).headers
          policy
  unfolding finish audited
  finish-policy a p type ((true, remaining), l) =
      let (o, s) = routes a.request p.state in passed-policy a o s p.pending l.limit remaining
  finish-policy a p type ((false, remaining), l) = refused a type l.limit (a.wall + 60)

  limit-policy :
      (a : Arrival) (p : Process routes cors) (ip : Option Text)
      → client_ip (limited a.request) ≡ ip
      → Reads
          (expected
            (let_through routes cors none ip a p.limits && is_some (routes a.request p.state).0))
          (limit routes cors a p).0.headers
          policy
  unfolding limit let_through
  limit-policy a p none e =
      rw
        (dispatch-none (λ _. audited routes cors a) p.limits (limited a.request)
          (p.state, p.pending) a.now a.wall e)
        (unfold answer outward in absent policy)
  limit-policy a p (some ip) e =
      rw
        (dispatch-some (λ _. audited routes cors a) p.limits (limited a.request)
          (p.state, p.pending) a.now a.wall ip e)
        (finish-policy a p (limit_type a.request.path)
          (is_allowed (limiter_of p.limits (limit_type a.request.path)) ip a.now))

  -- Where CORS does not answer: if the rate limit admits the request and a route answers, the client
  -- gets each header of the policy with its value, whatever the route has set; otherwise, in
  -- particular from a 429, it gets none of them.
  pub serve-policy :
      (a : Arrival) (p : Process routes cors)
      → cors.preflight a.request ≡ none
      → Reads
          (expected (admitted routes cors a p && is_some (routes a.request p.state).0))
          (serve routes cors a p).0.headers
          policy
  unfolding admitted
  serve-policy a p e =
      rw (serve-passed routes cors a p e, e) (limit-policy a p (client_ip (limited a.request)) refl)
