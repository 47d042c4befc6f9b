-- ===== src/Server/Gateway/Traced.antt =====
-- Which requests are handed to the audit, and what their clients see of the entry.
use aiss_waf_server.Prelude.{
  ℕ, ◌≡◌, refl, sym, ◌∙◌, Bool, true, false, Option, none, some, List, [], ◌∷◌, ◌++◌, All, inl, inr,
  Option-cases, if◌then◌else◌,
}
use mathlib.Core.List.{append-nil}
use aiss_waf_server.Prelude.Text.{Text, starts_with}
use aiss_waf_server.Prelude.Show.{show}
use aiss_waf_server.Prelude.Dict
use aiss_waf_server.Prelude.Dict.{string_eq}
use aiss_waf_server.RateLimit
use aiss_waf_server.RateLimit.{
  Limiter, RateLimits, LimitType, client_ip, limit_type, limiter_of, is_allowed, finish,
}
use aiss_waf_server.RateLimit.Dispatch.{dispatch-none, dispatch-some}
use aiss_waf_server.Audit.{Partial, AuditRequest, partial_of}
use aiss_waf_server.Server.Gateway.Headers.{Response, set_all, secure}
use aiss_waf_server.Server.Gateway.Stack.{
  Cors, Arrival, limited, is_cors, answer, Process, hand_over, inner, audited, outward, limit,
  serve_after, serve,
}

abbrev pub list_of : Option Partial → List Partial
list_of none = []
list_of (some e) = e ∷ []

-- The entry is that of the request and the status that the client sees, and its id is the request
-- id in the response.
abbrev pub Traces : Arrival → Response → Partial → Type 0
Traces a r e =
    (partial_of a.request a.uuid r.status a.elapsed_ms ≡ some e)
    × (Dict.lookup "x-request-id" r.headers ≡ some e.id)

module _ {S : Type 0} (routes : AuditRequest → S → Option Response × S) (cors : Cors) where
  unfoldable pub let_through : Option Response → Option Text → Arrival → RateLimits → Bool
  let_through (some r) ip a limits = false
  let_through none none a limits = false
  let_through none (some ip) a limits =
      (is_allowed (limiter_of limits (limit_type a.request.path)) ip a.now).0.0

  -- CORS does not answer the request, and the rate limit lets it through.
  unfoldable pub admitted : Arrival → Process routes cors → Bool
  unfolding let_through
  admitted a p = let_through (cors.preflight a.request) (client_ip (limited a.request)) a p.limits

  abbrev entry_of : Arrival → Option Response → List Partial
  entry_of a none = []
  entry_of a (some r) = list_of (partial_of a.request a.uuid r.status a.elapsed_ms)

  -- The entry that a request should leave.
  unfoldable pub recorded : Arrival → Process routes cors → List Partial
  unfolding admitted
  recorded a p = if admitted a p then entry_of a (routes a.request p.state).0 else []

  -- The rate limit adds its headers, and CORS those of its own.
  front :
      (a : Arrival) (r : Response) (l remaining : ℕ) (es : List Partial)
      → All (Traces a r) es
      → All (Traces a (outward routes cors a (answer (RateLimit.passed (some r) l remaining)))) es
  unfolding outward is_cors answer set_all starts_with
  front a r l remaining [] h = tt
  front a r l remaining (e ∷ es) ((made, id), h) = (
    (
      made,
      cors.decorate-other a.request "x-request-id" _ refl
          ∙ (Dict.lookup-insert "x-ratelimit-remaining" "x-request-id" (show remaining) _
              ∙ (Dict.lookup-insert "x-ratelimit-limit" "x-request-id" (show l) r.headers ∙ id)),
    ),
    front a r l remaining es h,
  )

  handed :
      (a : Arrival) (o : Option Partial) (r : Response) (pending : List Partial)
      → ((e : Partial) → o ≡ some e → partial_of a.request a.uuid r.status a.elapsed_ms ≡ some e)
      → ((hand_over routes cors o r pending).1 ≡ pending ++ list_of o)
        × All (Traces a (hand_over routes cors o r pending).0) (list_of o)
  unfolding hand_over
  handed a none r pending h = (sym (append-nil pending), tt)
  handed a (some e) r pending h = (refl, ((h e refl, rw Dict.lookup-insert refl), tt))

  -- What is handed over where the routes have answered or raised.
  passed-recorded :
      (a : Arrival) (o : Option Response) (s : S) (pending : List Partial) (l remaining : ℕ)
      → let out = inner routes cors a (o, s) pending in
        (out.1.1 ≡ pending ++ entry_of a o)
        × All
            (Traces a (outward routes cors a (answer (RateLimit.passed out.0 l remaining))))
            (entry_of a o)
  unfolding inner secure
  passed-recorded a none s pending l remaining = (sym (append-nil pending), tt)
  passed-recorded a (some r) s pending l remaining =
      let r' = secure a.request.path a.uuid' a.request.headers r in
      let found = partial_of a.request a.uuid r.status a.elapsed_ms in
      let h = handed a found r' pending (λ e q. q) in
      (h.0, front a (hand_over routes cors found r' pending).0 l remaining (list_of found) h.1)

  finish-recorded :
      (a : Arrival) (p : Process routes cors) (type : LimitType) (res : (Bool × ℕ) × Limiter)
      → let out =
          finish
            (λ _. audited routes cors a)
            p.limits
            type
            (limited a.request)
            (p.state, p.pending)
            a.wall
            res in
        let es = if res.0.0 then entry_of a (routes a.request p.state).0 else [] in
        (out.2.1 ≡ p.pending ++ es) × All (Traces a (outward routes cors a (answer out.0))) es
  unfolding finish audited
  finish-recorded a p type ((false, remaining), l) = (sym (append-nil p.pending), tt)
  finish-recorded a p type ((true, remaining), l) =
      let (o, s) = routes a.request p.state in passed-recorded a o s p.pending l.limit remaining

  pub serve-passed :
      (a : Arrival) (p : Process routes cors)
      → cors.preflight a.request ≡ none
      → serve routes cors a p ≡ limit routes cors a p
  unfolding serve serve_after
  serve-passed a p e = rw (e, serve_after)

  serve-answered :
      (a : Arrival) (p : Process routes cors) (r : Response)
      → cors.preflight a.request ≡ some r
      → serve routes cors a p ≡ (r, p)
  unfolding serve serve_after
  serve-answered a p r e = rw (e, serve_after)

  limit-recorded :
      (a : Arrival) (p : Process routes cors) (ip : Option Text)
      → client_ip (limited a.request) ≡ ip
      → let es =
          if let_through none ip a p.limits then entry_of a (routes a.request p.state).0 else [] in
        ((limit routes cors a p).1.pending ≡ p.pending ++ es)
        × All (Traces a (limit routes cors a p).0) es
  unfolding limit let_through
  limit-recorded a p none e =
      rw
        (dispatch-none (λ _. audited routes cors a) p.limits (limited a.request)
          (p.state, p.pending) a.now a.wall e)
        (sym (append-nil p.pending), tt)
  limit-recorded a p (some ip) e =
      rw
        (dispatch-some (λ _. audited routes cors a) p.limits (limited a.request)
          (p.state, p.pending) a.now a.wall ip e)
        (finish-recorded a p (limit_type a.request.path)
          (is_allowed (limiter_of p.limits (limit_type a.request.path)) ip a.now))

  -- Whatever the routes answer or raise: a request leaves one entry if CORS does not answer it, the
  -- rate limit admits it, a route answers and its path is not exempt, and none otherwise. The entry
  -- has the status that the client sees, and the client sees its id in X-Request-ID.
  pub serve-recorded :
      (a : Arrival) (p : Process routes cors)
      → ((serve routes cors a p).1.pending ≡ p.pending ++ recorded a p)
        × All (Traces a (serve routes cors a p).0) (recorded a p)
  unfolding recorded admitted
  serve-recorded a p = elim (Option-cases (cors.preflight a.request)) [
    | inr (r, e) ↦
        rw (serve-answered a p r e) (rw (e, let_through) (sym (append-nil p.pending), tt))
    | inl e ↦
        rw (serve-passed a p e) (rw e (limit-recorded a p (client_ip (limited a.request)) refl))
  ]
