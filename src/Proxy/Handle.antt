-- ===== src/Proxy/Handle.antt =====
-- The verdict and the handler of waf-proxy/main.py.
use aiss_waf_server.Prelude.{
  ℕ, zero, suc, Bool, false, ◌&&◌, ◌||◌, Option, none, some, [], ◌++◌, ◌==◌, if◌then◌else◌,
}
use aiss_waf_server.Prelude.Text.{Text, codes, text_eq, strip_bytes}
use aiss_waf_server.Prelude.Dict.{Dict}
use aiss_waf_server.Proxy.Defs.{
  Settings, Request, Question, Field, missing, null, value, Verdict, Loaded, refused, not_dict,
  loaded, Connection, failed, connected, Outgoing, Backend, answered, unreachable, failing, receive,
  client_ip, question, proxy_headers, target_url, kept_onto, response_skipped,
}

-- The verdict as the handler reads it; an action or a reason that is null is `none`.
pub record Decision (F : Type 0) : Type 0 where
  pub action : Option Text
  pub reason : Option Text
  pub tier : ℕ
  pub cve_id : Text
  pub rule_name : Text
  pub ml_score : F
  pub latency_ms : F

-- The event for the central server.
pub record Event (F : Type 0) : Type 0 where
  pub id : Text
  pub client_ip : Text
  pub method : Text
  pub uri : Text
  pub decision : Decision F

-- The answers: the page of a block with what is put into it, the backend's, and 502 with a text; an
-- exception in the handler is a 500.
pub data Response (F : Type 0) : Type 0 where
  block_page : Decision F → Response F
  proxied : (status : ℕ) → Dict Text Text → (content : Text) → Response F
  bad_gateway : Text → Response F
  server_error : Response F
  healthy : Response F

unfoldable pub status : {F : Type 0} → Response F → ℕ
status (block_page d) = 403
status (proxied code headers content) = code
status (bad_gateway text) = 502
status server_error = 500
status healthy = 200

-- d.get(key, default), and float or int of it, where null raises
abbrev pub text_of : Field Text → Text → Option Text
text_of missing d = some d
text_of null d = none
text_of (value a) d = some a

abbrev pub number_of : {A : Type 0} → Field A → A → Option A
number_of missing d = some d
number_of null d = none
number_of (value a) d = some a

-- d.get(key, "") or ""
abbrev pub or_empty : Field Text → Text
or_empty missing = []
or_empty null = []
or_empty (value a) = a

-- `zero_float` is 0.0.
module _ {F : Type 0} (zero_float : F) where
  unfoldable pub fail_open : Text → Verdict F
  unfolding codes
  fail_open exc = record {
    action = value (codes "PERMIT");
    reason = value (codes "fail-open: " ++ exc);
    tier = value 0;
    cve_id = missing;
    rule_name = missing;
    ml_score = value zero_float;
    latency_ms = value zero_float;
  }

  unfoldable pub parsed : Loaded F → Loaded F
  unfolding fail_open
  parsed (refused exc) = loaded (fail_open exc)
  parsed not_dict = not_dict
  parsed (loaded v) = loaded v

  unfoldable pub after_receive : (Text → Loaded F) → Text × Option Text → Loaded F
  unfolding parsed fail_open
  after_receive loads (buf, some exc) = loaded (fail_open exc)
  after_receive loads (buf, none) = parsed (loads (strip_bytes buf))

  unfoldable pub consult : (loads : Text → Loaded F) → Connection → Loaded F
  unfolding after_receive receive fail_open
  consult loads (failed exc) = loaded (fail_open exc)
  consult loads (connected received) = after_receive loads (receive [] received)

  decision_of : Verdict F → Option ℕ → Option F → Option F → Option (Decision F)
  unfolding codes
  decision_of v (some tier) (some ml_score) (some latency_ms) = some (record {
    action = text_of v.action (codes "PERMIT");
    reason = text_of v.reason [];
    tier = tier;
    cve_id = or_empty v.cve_id;
    rule_name = or_empty v.rule_name;
    ml_score = ml_score;
    latency_ms = latency_ms;
  })
  decision_of v _ _ _ = none

  -- `none` is an exception.
  unfoldable pub read_verdict : Loaded F → Option (Decision F)
  unfolding decision_of
  read_verdict (loaded v) =
      decision_of v (number_of v.tier 0) (number_of v.ml_score zero_float)
        (number_of v.latency_ms zero_float)
  read_verdict _ = none

-- action == "BLOCK"
unfoldable pub is_block : Option Text → Bool
unfolding codes text_eq
is_block none = false
is_block (some action) = text_eq action (codes "BLOCK")

unfoldable pub outgoing_of : Settings → Request → Outgoing
unfolding target_url proxy_headers
outgoing_of s r = record {
  method = r.method;
  url = target_url s r;
  headers = proxy_headers s r;
  body = r.body;
}

-- What a request leads to: the answer, the event that is sent, and the request to the backend.
pub record Handled (F : Type 0) : Type 0 where
  pub response : Response F
  pub event : Option (Event F)
  pub outgoing : Option Outgoing

module _ {F : Type 0} where
  unfoldable pub relay : Backend → Response F
  unfolding codes kept_onto response_skipped
  relay (answered code headers content) =
      proxied code (kept_onto response_skipped [] headers) content
  relay (unreachable exc) = bad_gateway (codes "Backend unreachable: " ++ exc)
  relay (failing exc) = bad_gateway (codes "Proxy error: " ++ exc)

  unfoldable pub event_of : (uuid : Text) → Request → Decision F → Event F
  event_of uuid r d = record {
    id = uuid;
    client_ip = client_ip r;
    method = r.method;
    uri = r.path;
    decision = d;
  }

  -- The handler once the verdict is read.
  unfoldable pub decided :
      Settings → (Outgoing → Backend) → (uuid : Text) → Request → Option (Decision F) → Handled F
  unfolding is_block relay outgoing_of event_of
  decided s backend uuid r none = record { response = server_error; event = none; outgoing = none }
  decided s backend uuid r (some d) =
      if is_block d.action
      then record { response = block_page d; event = some (event_of uuid r d); outgoing = none }
      else record {
        response = relay (backend (outgoing_of s r));
        event = some (event_of uuid r d);
        outgoing = some (outgoing_of s r);
      }

  -- The agent is the socket that is asked the question.
  unfoldable pub handle :
      (zero_float : F) (b64encode : Text → Text) (loads : Text → Loaded F)
      → (Question → Connection)
      → Settings
      → (Outgoing → Backend)
      → (uuid : Text) → Request
      → Handled F
  unfolding decided read_verdict consult question
  handle zero_float b64encode loads agent s backend uuid r =
      decided s backend uuid r
        (read_verdict zero_float (consult zero_float loads (agent (question b64encode uuid r))))

  unfoldable pub health : Handled F
  health = record { response = healthy; event = none; outgoing = none }

  -- The routes: GET, with HEAD, of /health, and all else.
  unfoldable pub dispatch : (Request → Handled F) → Request → Handled F
  unfolding health codes text_eq
  dispatch handler r =
      if text_eq r.path (codes "/health")
        && (text_eq r.method (codes "GET") || text_eq r.method (codes "HEAD"))
      then health
      else handler r

-- `_register_agent`: the attempts that are made, each with the status of its answer or none where it
-- raises; the number of the one that succeeds.
unfoldable pub register_from : (left : ℕ) (attempt : ℕ) → (ℕ → Option ℕ) → Option ℕ
register_from zero attempt post = none
register_from (suc left) attempt post =
    let rest = register_from left (suc attempt) post in
    elim (post attempt) [
      | none ↦ rest
      | some code ↦ if code == 201 || code == 409 then some attempt else rest
    ]

unfoldable pub register_agent : (ℕ → Option ℕ) → Option ℕ
unfolding register_from
register_agent = register_from 10 0
