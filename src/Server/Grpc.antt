-- ===== src/Server/Grpc.antt =====
-- The gRPC service of server/app/grpc_server.py: telemetry into the queue of server/app/doris.py,
-- the stream of signatures, registration, and the port that is opened.
pub mod Accepted
pub mod Stalled
mod Tests
use aiss_waf_server.Prelude.{
  ℕ, suc, ◌+◌, Bool, true, false, ◌&&◌, Option, none, some, List, [], ◌∷◌, ◌++◌, leb, take, map,
  if◌then◌else◌,
}
use aiss_waf_server.Prelude.Text.{Text, codes, or_else}
use aiss_waf_server.Prelude.Int.{ℤ, pos, int_of}
use aiss_waf_server.Server.Doris.{Event, Writer, Step, enqueue, step, has_room}
use aiss_waf_server.Server.Doris.Upsert.{Driver, Outcome, AgentRow, upsert_agent}
use aiss_waf_server.Server.Registry.Updates.{Signature, replace_z}

-- A TelemetryEvent, its numbers printed.
pub record Message : Type 0 where
  pub request_id : Text
  pub agent_id : Text
  pub client_ip : Text
  pub method : Text
  pub uri : Text
  pub action : Text
  pub tier : Text
  pub cve_id : Text
  pub rule_name : Text
  pub reason : Text
  pub ml_score : Text
  pub latency_ms : Text
  pub server_type : Text

-- A message with the time and the fresh id that it is given: `"grpc-" and time.time_ns()`.
pub record Arrival : Type 0 where
  pub message : Message
  pub time : Text
  pub fresh : Text

unfoldable pub event_dict : Arrival → Event
event_dict a =
    let m = a.message in
    (codes "created_at", a.time)
    ∷ (codes "id", or_else m.request_id a.fresh)
    ∷ (codes "agent_id", m.agent_id)
    ∷ (codes "client_ip", m.client_ip)
    ∷ (codes "method", m.method)
    ∷ (codes "uri", take 2048 m.uri)
    ∷ (codes "action", m.action)
    ∷ (codes "tier", m.tier)
    ∷ (codes "cve_id", m.cve_id)
    ∷ (codes "rule_name", m.rule_name)
    ∷ (codes "reason", take 1024 m.reason)
    ∷ (codes "ml_score", m.ml_score)
    ∷ (codes "latency_ms", m.latency_ms)
    ∷ (codes "server_type", m.server_type)
    ∷ []

module _ (loads : List Event → Bool) where
  -- event_writer.enqueue and its result
  unfoldable pub try_enqueue : Event → Writer → Bool × Writer
  try_enqueue e w = (has_room loads w, step loads (enqueue e) w)

  -- The answer has the number of events that were accepted, starting from `accepted`.
  unfoldable pub submit_telemetry : (accepted : ℕ) → List Arrival → Writer → ℕ × Writer
  submit_telemetry accepted [] w = (accepted, w)
  submit_telemetry accepted (a ∷ events) w =
      let (taken, w') = try_enqueue (event_dict a) w in
      submit_telemetry (if taken then suc accepted else accepted) events w'

-- A row of cve_signatures with the columns that only this service sends.
pub record Row (C : Type 0) : Type 0 where
  pub sig : Signature C
  pub name : Text
  pub flags : Text

-- The message CVESignature of the protocol.
pub record SignatureMessage (C : Type 0) : Type 0 where
  pub id : ℤ
  pub cve_id : Text
  pub name : Text
  pub pattern : Text
  pub flags : Text
  pub severity : Text
  pub cvss : C
  pub affected_product : Text
  pub active : Bool
  pub modified_at : Text

-- What a client receives, and whether the stream ends with an error.
pub record Stream (C : Type 0) : Type 0 where
  pub sent : List (SignatureMessage C)
  pub failed : Bool

-- int(row.id) if row.id else 0
unfoldable pub message_id : Text → Option ℤ
message_id [] = some (pos 0)
message_id (c ∷ s) = int_of (c ∷ s)

-- `parse` is datetime.fromisoformat, `none` where it raises; the epoch is time 0.
unfoldable pub since_of : (parse : Text → Option ℕ) → Text → ℕ
since_of parse since = elim (parse (replace_z (or_else since (codes "1970-01-01T00:00:00Z")))) [
  | none ↦ 0
  | some t ↦ t
]

module _ {C : Type 0} where
  -- WHERE active AND modified_at >= since
  unfoldable pub selected : ℕ → List (Row C) → List (Row C)
  selected since [] = []
  selected since (r ∷ rows) =
      let rest = selected since rows in
      if r.sig.active && leb since r.sig.modified_at then r ∷ rest else rest

  module _ (isoformat : ℕ → Text) (accepts : SignatureMessage C → Bool) where
    unfoldable pub message_of : ℤ → Row C → SignatureMessage C
    message_of id r = record {
      id = id;
      cve_id = r.sig.cve_id;
      name = r.name;
      pattern = r.sig.pattern;
      flags = r.flags;
      severity = r.sig.severity;
      cvss = r.sig.cvss;
      affected_product = r.sig.affected_product;
      active = r.sig.active;
      modified_at = isoformat r.sig.modified_at;
    }

    -- One row of the stream before the rest; `accepts` is the generated class, which may refuse.
    unfoldable pub send : Option ℤ → Row C → Stream C → Stream C
    unfolding message_of
    send none r rest = record { sent = []; failed = true }
    send (some id) r rest =
        let m = message_of id r in
        if accepts m
        then record rest { sent = m ∷ rest.sent }
        else record { sent = []; failed = true }

    unfoldable pub stream : List (Row C) → Stream C
    unfolding send message_id
    stream [] = record { sent = []; failed = false }
    stream (r ∷ rows) = send (message_id r.sig.id) r (stream rows)

    unfoldable pub get_cve_updates :
        (parse : Text → Option ℕ) (since : Text) → List (Row C) → Stream C
    unfolding stream selected since_of
    get_cve_updates parse since rows = stream (selected (since_of parse since) rows)

-- RegisterAgent: the acknowledgement does not depend on the upsert.
pub record AgentInfo : Type 0 where
  pub id : Text
  pub hostname : Text
  pub ip : Text
  pub server_type : Text
  pub version : Text
  pub mode : Text

unfoldable pub register_agent :
    {T : Type 0} → Driver AgentRow T → AgentInfo → (now : Text) → T → Bool × (Outcome × T)
register_agent d a now t = (
  true,
  upsert_agent d
      (record {
        id = a.id;
        hostname = a.hostname;
        ip = a.ip;
        server_type = a.server_type;
        version = a.version;
        mode = a.mode;
        last_seen = now;
        created_at = now;
      })
      t,
)

-- The port that `serve_grpc` opens.
pub data Port : Type 0 where
  closed mutual_tls insecure : Port

-- `certificates`: the three files exist; `credentials`: making them and adding the port works.
unfoldable pub serve_grpc : (stubs certificates credentials : Bool) → Port
serve_grpc false certificates credentials = closed
serve_grpc true false credentials = insecure
serve_grpc true true false = insecure
serve_grpc true true true = mutual_tls
