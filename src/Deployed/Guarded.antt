-- ===== src/Deployed/Guarded.antt =====
-- The proxy before the agent with its pipeline, agent/security/pipeline.py.
use aiss_waf_server.Prelude.{
  ℕ, ◌≡◌, refl, ap, ◌∙◌, Bool, true, false, not, ◌&&◌, ltb, if◌then◌else◌, Option, none, some,
}
use aiss_waf_server.Prelude.Text.{Text}
use aiss_waf_server.Agent.Runtime.{Runtime}
use aiss_waf_server.Agent.Floats.{Floats}
use aiss_waf_server.Agent.Request
use aiss_waf_server.Agent.Pipeline.{permit, block, HashStore, Pipeline, is_static_file, check}
use aiss_waf_server.Agent.Pipeline.Defs.{is_shadow}
use aiss_waf_server.Agent.Pipeline.Blocks.{finds_threat, check-action}
use aiss_waf_server.Agent.Socket.{Stats, Response, Service}
use aiss_waf_server.Proxy.Defs.{Settings, Request, Outgoing, Backend, question}
use aiss_waf_server.Proxy.Handle.{outgoing_of, handle}
use aiss_waf_server.Deployed.{Wire, IsCarried, agent_socket, is_blocking, told, blocks}
use aiss_waf_server.Deployed.Enforced.{handle-enforced}

is_blocking-mode :
    (sh b : Bool)
    → is_blocking (if b then (if sh then permit else block) else permit) ≡ (not sh && b)
unfolding is_blocking
is_blocking-mode true true = refl
is_blocking-mode true false = refl
is_blocking-mode false true = refl
is_blocking-mode false false = refl

module _ (rt : Runtime) (fl : Floats) (hs : HashStore) (p : Pipeline fl) (db : hs.Db) (ms : ℕ)
    (timeout latency : ℕ) where
  -- The agent while its database is `db`, with the time that the pipeline takes.
  abbrev pub agent :
      (parse : Text → Option Request.Request) (sendall : Response fl → Bool) → Service fl
  agent parse sendall = record {
    Req = Request.Request;
    parse = parse;
    check = λ r. some ((check rt fl hs p r ms db).verdict, latency);
    sendall = sendall;
  }

  abbrev pub must_block : Request.Request → Bool
  must_block req =
      not (ltb timeout latency)
      && (not (is_shadow p.mode)
          && (not (is_static_file req.uri) && finds_threat rt fl hs p req ms db))

  blocks-must_block :
      (req : Request.Request)
      → blocks fl timeout (some ((check rt fl hs p req ms db).verdict, latency)) ≡ must_block req
  unfolding blocks
  blocks-must_block req =
      ap (λ b. not (ltb timeout latency) && b)
        (ap is_blocking (check-action rt fl hs p req ms db).0
          ∙ is_blocking-mode (is_shadow p.mode)
              (not (is_static_file req.uri) && finds_threat rt fl hs p req ms db))

  -- Where the agent can write its answer and the JSON libraries and the socket carry the question and
  -- that answer: the proxy sends a request to the backend, as `outgoing_of` makes it, exactly unless
  -- the agent parses a request in which some tier finds a threat, whose path is not that of a static
  -- file, in a mode that is not shadow, and answers in time.
  pub handle-guarded :
      (parse : Text → Option Request.Request) (wire : Wire fl) (zero_float : fl.F) (stats : Stats)
      (b64encode : Text → Text) (s : Settings) (backend : Outgoing → Backend) (uuid : Text)
      (r : Request) (req : Request.Request)
      → let sv = agent parse (λ response. true) in
        IsCarried fl wire sv (question b64encode uuid r) req (told fl timeout (sv.check req))
        → (handle zero_float b64encode wire.loads
            (agent_socket fl wire (agent parse (λ response. true)) timeout stats)
            s
            backend
            uuid
            r).outgoing
          ≡ (if must_block req then none else some (outgoing_of s r))
  handle-guarded parse wire zero_float stats b64encode s backend uuid r req carried =
      (handle-enforced fl wire (agent parse (λ response. true)) timeout (λ response. refl)
        zero_float stats b64encode s backend uuid r req carried).1
      ∙ ap (λ b. if b then none else some (outgoing_of s r)) (blocks-must_block req)
