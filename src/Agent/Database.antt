-- ===== src/Agent/Database.antt =====
-- The agent's database, agent/db/duckdb_store.py: the tables, the statements that the methods
-- queue, the queue and the rounds of the writer thread.
pub mod Reads
pub mod Writes
pub mod Drained
pub mod Raising
pub mod Queries
pub mod Cache
mod Tests
use aiss_waf_server.Prelude.{
  ℕ, Bool, true, false, ◌&&◌, ◌||◌, Option, none, some, List, [], ◌∷◌, ◌++◌, length, take, drop,
  ltb, leb, ◌+◌, if◌then◌else◌,
}
use aiss_waf_server.Prelude.Text.{Text, codes, text_eq}
use aiss_waf_server.Prelude.Dict.{Eq, Dict, delete}
use aiss_waf_server.Prelude.Dict.{text_keys, nat_keys}

pub record IpRow : Type 0 where
  pub verdict : Text
  pub reason : Text
  pub cve_id : Option Text
  pub expires_at : ℕ

pub record SignatureRow : Type 0 where
  pub cve_id : Text
  pub pattern : Text
  pub severity : Text
  pub active : Bool

pub record HashRow : Type 0 where
  pub verdict : Text
  pub threat_name : Option Text

-- A row of security_events; `F` is the type of its floats.
pub record EventRow (F : Type 0) : Type 0 where
  pub id : Text
  pub client_ip : Text
  pub method : Text
  pub uri : Text
  pub action : Text
  pub tier : ℕ
  pub cve_id : Option Text
  pub rule_name : Option Text
  pub reason : Text
  pub ml_score : F
  pub latency_ms : F

-- The five tables, by primary key. The columns loaded_at, scanned_at and updated_at are read by
-- nothing; the rows of security_events carry the time of their insertion, created_at.
pub record Tables (F : Type 0) : Type 0 where
  pub ip_reputation : Dict Text IpRow
  pub cve_signatures : Dict ℕ SignatureRow
  pub file_hashes : Dict Text HashRow
  pub agent_config : Dict Text Text
  pub security_events : List (ℕ × EventRow F)

-- The statements that are queued, with their parameters.
pub data Statement (F : Type 0) : Type 0 where
  set_ip_verdict : Text → IpRow → Statement F
  cleanup_expired_ips : Statement F
  upsert_signature : (sig_id : ℕ) (cve_id pattern severity : Text) → Statement F
  deactivate_signature : Text → Statement F
  store_file_hash : Text → HashRow → Statement F
  set_config : (key value : Text) → Statement F
  store_event : EventRow F → Statement F

-- The dict that `store_event` is given; `none` is a missing key.
pub record Event (F : Type 0) : Type 0 where
  pub client_ip : Option Text
  pub method : Option Text
  pub uri : Option Text
  pub action : Option Text
  pub tier : Option ℕ
  pub cve_id : Option Text
  pub rule_name : Option Text
  pub reason : Option Text
  pub ml_score : Option F
  pub latency_ms : Option F

abbrev pub get {ℓ} : {A : Type ℓ} → Option A → A → A
get none d = d
get (some a) d = a

-- The parameters of the insertion, where `uuid` is the new id and `zero_float` is 0.0.
unfoldable pub event_row : {F : Type 0} (zero_float : F) (uuid : Text) → Event F → EventRow F
event_row zero_float uuid e = record {
  id = uuid;
  client_ip = get e.client_ip [];
  method = get e.method [];
  uri = take 2000 (get e.uri []);
  action = get e.action [];
  tier = get e.tier 0;
  cve_id = e.cve_id;
  rule_name = e.rule_name;
  reason = take 1000 (get e.reason []);
  ml_score = get e.ml_score zero_float;
  latency_ms = get e.latency_ms zero_float;
}

-- The statement of `set_ip_verdict` called at the time `now`, in UTC.
unfoldable pub ip_statement :
    {F : Type 0}
    → ℕ
    → Text
    → (verdict reason : Text) → Option Text
    → (ttl_seconds : ℕ) → Statement F
ip_statement now ip verdict reason cve_id ttl_seconds =
    set_ip_verdict ip (record {
      verdict = verdict;
      reason = reason;
      cve_id = cve_id;
      expires_at = now + ttl_seconds;
    })

-- The rows of a table. The time of a read and of an execution is CURRENT_TIMESTAMP as it compares to
-- a column without a time zone: the local time of the session.
module _ {K V : Type 0} ⦃e : Eq K⦄ where
  -- INSERT OR REPLACE
  unfoldable pub replace : K → V → Dict K V → Dict K V
  replace k v d = delete k d ++ ((k, v) ∷ [])

  -- The first row of SELECT … WHERE key = k AND keep.
  unfoldable pub select : (V → Bool) → K → Dict K V → Option V
  select keep k [] = none
  select keep k ((j, v) ∷ d) = if e.beq j k && keep v then some v else select keep k d

unfoldable pub delete_expired : ℕ → Dict Text IpRow → Dict Text IpRow
delete_expired now [] = []
delete_expired now ((ip, r) ∷ d) =
    let rest = delete_expired now d in if leb r.expires_at now then rest else (ip, r) ∷ rest

unfoldable pub deactivate : Text → Dict ℕ SignatureRow → Dict ℕ SignatureRow
deactivate cve [] = []
deactivate cve ((i, s) ∷ d) =
    (i, (if text_eq s.cve_id cve then record s { active = false } else s)) ∷ deactivate cve d

module _ {F : Type 0} where
  -- A statement that is executed at the time `now`.
  unfoldable pub execute : ℕ → Statement F → Tables F → Tables F
  unfolding delete_expired deactivate replace
  execute now (set_ip_verdict ip r) t = record t { ip_reputation = replace ip r t.ip_reputation }
  execute now cleanup_expired_ips t = record t {
    ip_reputation = delete_expired now t.ip_reputation;
  }
  execute now (upsert_signature i cve p sev) t = record t {
    cve_signatures =
        replace i (record { cve_id = cve; pattern = p; severity = sev; active = true })
          t.cve_signatures;
  }
  execute now (deactivate_signature cve) t = record t {
    cve_signatures = deactivate cve t.cve_signatures;
  }
  execute now (store_file_hash sha r) t = record t { file_hashes = replace sha r t.file_hashes }
  execute now (set_config k v) t = record t { agent_config = replace k v t.agent_config }
  execute now (store_event e) t = record t {
    security_events = t.security_events ++ ((now, e) ∷ []);
  }

  unfoldable pub get_ip_verdict : ℕ → Text → Tables F → Option IpRow
  unfolding select
  get_ip_verdict now ip t = select (λ r. ltb now r.expires_at) ip t.ip_reputation

  unfoldable pub get_file_hash : Text → Tables F → Option HashRow
  unfolding select
  get_file_hash sha t = select (λ _. true) sha t.file_hashes

  unfoldable pub get_config : Text → Tables F → Option Text
  unfolding select
  get_config k t = select (λ _. true) k t.agent_config

-- `closed` is the shutdown event, and the tables are those of the connection for writes.
pub record Store (F : Type 0) : Type 0 where
  pub queue : List (Statement F)
  pub tables : Tables F
  pub closed : Bool

unfoldable pub is_memory : Text → Bool
unfolding codes text_eq
is_memory db_path = text_eq db_path (codes ":memory:")

-- A read on the connection for reads. To a file, the two connections have the same tables; each
-- connection to ":memory:" has a database of its own, and that of the reads has no tables: the read
-- raises, `none`.
unfoldable pub read_from : {F A : Type 0} → (db_path : Text) → (Tables F → A) → Store F → Option A
unfolding is_memory
read_from db_path read st = if is_memory db_path then none else some (read st.tables)

-- The calls from the agent's threads, a round of the writer thread at a time, and `close`.
pub data Call (F : Type 0) : Type 0 where
  write : Statement F → Call F
  round : ℕ → Call F
  close : Call F

abbrev pub queue_size : ℕ
queue_size = 10000

abbrev pub batch_size : ℕ
batch_size = 200

-- `raises` says where the database raises an exception.
module _ {F : Type 0} (raises : Tables F → Statement F → Bool) where
  unfoldable pub new_store : Store F
  new_store = record {
    queue = [];
    tables = record {
      ip_reputation = [];
      cve_signatures = [];
      file_hashes = [];
      agent_config = [];
      security_events = [];
    };
    closed = false;
  }

  unfoldable pub has_room : Store F → Bool
  has_room st = ltb (length st.queue) queue_size

  -- A statement is dropped where the queue is full.
  unfoldable pub enqueue : Statement F → Store F → Store F
  unfolding has_room
  enqueue s st = if has_room st then record st { queue = st.queue ++ (s ∷ []) } else st

  -- Each statement is a transaction of its own; an exception ends the batch.
  unfoldable pub execute_batch : ℕ → List (Statement F) → Tables F → Tables F
  execute_batch now [] t = t
  execute_batch now (s ∷ batch) t =
      let rest = execute_batch now batch (execute now s t) in if raises t s then t else rest

  unfoldable pub write_round : ℕ → Store F → Store F
  unfolding execute_batch
  write_round now st = if st.closed then st else record {
    queue = drop batch_size st.queue;
    tables = execute_batch now (take batch_size st.queue) st.tables;
    closed = false;
  }

  unfoldable pub call : Call F → Store F → Store F
  unfolding enqueue write_round
  call (write s) st = enqueue s st
  call (round now) st = write_round now st
  call close st = record st { closed = true }

  unfoldable pub run : List (Call F) → Store F → Store F
  unfolding call
  run [] st = st
  run (c ∷ cs) st = run cs (call c st)
