-- ===== src/Deployed.antt =====
-- The reverse proxy of waf-proxy/main.py before the agent of agent/socket_server.py: what the one
-- writes to the Unix socket and the other reads from it, and back.
pub mod Lines
pub mod Enforced
pub mod Guarded
mod Tests
use aiss_waf_server.Prelude.{
  ℕ, ◌≡◌, Bool, true, false, not, ◌&&◌, ltb, if◌then◌else◌, Option, none, some, List, [], ◌∷◌, ◌++◌,
  map, All, is_empty,
}
use aiss_waf_server.Prelude.Text.{Text, codes, contains, strip_bytes}
use aiss_waf_server.Agent.Floats.{Floats}
use aiss_waf_server.Agent.Pipeline.{Action, permit, block, Verdict}
use aiss_waf_server.Agent.Socket.{Stats, Response, answer, permit_open, Service, handle_connection}
use aiss_waf_server.Agent.Socket
use aiss_waf_server.Proxy.Defs.{
  Question, Field, missing, null, value, Loaded, loaded, Connection, connected,
}
use aiss_waf_server.Proxy.Defs
use aiss_waf_server.Deployed.Lines.{concat, IsPiece}

-- json.dumps of both sides, json.loads of the proxy, the float of microseconds as milliseconds, and
-- the pieces in which the socket carries a text.
pub record Wire (fl : Floats) : Type 0 where
  pub dumps_question : Question → Text
  pub dumps_response : Response fl → Text
  pub loads : Text → Loaded fl.F
  pub millis : ℕ → fl.F
  pub cut : Text → List Text

unfoldable pub action_text : Action → Text
unfolding codes
action_text permit = codes "PERMIT"
action_text block = codes "BLOCK"

abbrev pub nullable : Option Text → Field Text
nullable none = null
nullable (some t) = value t

module _ (fl : Floats) (wire : Wire fl) where
  -- The dict of a response, as the proxy reads it.
  unfoldable pub seen : Response fl → Defs.Verdict fl.F
  unfolding action_text codes
  seen (answer v latency) = record {
    action = value (action_text v.action);
    reason = value v.reason;
    tier = value v.tier;
    cve_id = nullable v.cve_id;
    rule_name = missing;
    ml_score = value v.ml_score;
    latency_ms = value (wire.millis latency);
  }
  seen permit_open = record {
    action = value (codes "PERMIT");
    reason = value (codes "fail-open");
    tier = value 0;
    cve_id = missing;
    rule_name = missing;
    ml_score = missing;
    latency_ms = missing;
  }

  unfoldable pub sent_lines : List (Response fl) → Text
  sent_lines [] = []
  sent_lines (r ∷ rs) = (wire.dumps_response r ++ (10 ∷ [])) ++ sent_lines rs

  -- One connection of the proxy to the agent.
  unfoldable pub agent_socket : (sv : Service fl) (timeout : ℕ) → Stats → Question → Connection
  unfolding sent_lines
  agent_socket sv timeout s q =
      let payload = wire.dumps_question q ++ (10 ∷ []) in
      let responses = (handle_connection fl sv timeout (map Socket.chunk (wire.cut payload)) s).1 in
      connected (map Defs.chunk (wire.cut (sent_lines responses)))

  -- The two libraries and the socket at one exchange: a JSON text has no line end, each side parses
  -- what the other has written, and the pieces make up the text.
  pub record IsCarried (sv : Service fl) (q : Question) (req : sv.Req) (r : Response fl)
      : Type 0 where
    pub question_line : contains (wire.dumps_question q) (10 ∷ []) ≡ false
    pub question_parses : sv.parse (wire.dumps_question q ++ (10 ∷ [])) ≡ some req
    pub question_pieces :
        concat (wire.cut (wire.dumps_question q ++ (10 ∷ []))) ≡ wire.dumps_question q ++ (10 ∷ [])
    pub response_line : contains (wire.dumps_response r) (10 ∷ []) ≡ false
    pub response_loads :
        wire.loads (strip_bytes (wire.dumps_response r ++ (10 ∷ []))) ≡ loaded (seen r)
    pub response_pieces :
        concat (wire.cut (wire.dumps_response r ++ (10 ∷ []))) ≡ wire.dumps_response r ++ (10 ∷ [])
    pub response_pieces_full : All IsPiece (wire.cut (wire.dumps_response r ++ (10 ∷ [])))

-- What the agent answers to a request that the pipeline has judged in some time, or has raised on.
unfoldable pub told : (fl : Floats) (timeout : ℕ) → Option (Verdict fl × ℕ) → Response fl
told fl timeout none = permit_open
told fl timeout (some (v, latency)) = if ltb timeout latency then permit_open else answer v latency

unfoldable pub is_blocking : Action → Bool
is_blocking permit = false
is_blocking block = true

-- The pipeline has blocked the request in time.
unfoldable pub blocks : (fl : Floats) (timeout : ℕ) → Option (Verdict fl × ℕ) → Bool
unfolding is_blocking
blocks fl timeout none = false
blocks fl timeout (some (v, latency)) = not (ltb timeout latency) && is_blocking v.action
