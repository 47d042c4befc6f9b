-- ===== src/Audit.antt =====
-- The audit chain: server/app/middleware/audit.py (the middleware that appends entries) and the
-- endpoints of server/app/routers/audit.py (verification, purge, reset) over one table of rows.
-- Datetimes are numbers of microseconds.
pub mod Rows
pub mod Chain
pub mod History
pub mod Breaks
pub mod Tamper
pub mod Listing
mod Tests
use aiss_waf_server.Prelude.{
  ℕ, ◌+◌, ◌-◌, ◌*◌, String, Bool, true, false, ◌&&◌, ◌||◌, not, Option, none, some, List, [], ◌∷◌,
  ◌++◌, length, take, ltb, leb, if◌then◌else◌,
}
use aiss_waf_server.Prelude.Text.{Text, codes, text_eq, elem, or_else}
use aiss_waf_server.Prelude.Show.{show}
use aiss_waf_server.Prelude.Dict
use aiss_waf_server.Prelude.Dict.{Dict, string_eq}

-- What the program takes from its libraries: the hexadecimal HMAC-SHA256 of a payload under a
-- key, and the ISO form of a datetime as it is made, and as the database gives it back.
pub record Library : Type 0 where
  pub hmac_sha256 : Text → Text → Text
  pub isoformat : ℕ → Text
  pub read_isoformat : ℕ → Text

unfoldable pub genesis : Text
unfolding codes
genesis = codes "GENESIS"

-- The dict `partial` that `dispatch` hands over; `elapsed_ms` is in hundredths.
pub record Partial : Type 0 where
  pub id : Text
  pub actor : Text
  pub client_ip : Text
  pub method : Text
  pub path : Text
  pub query : Text
  pub status : ℕ
  pub elapsed_ms : ℕ
  pub user_agent : Text

-- A row of `audit_logs`.
pub record Row : Type 0 where
  pub part : Partial
  pub timestamp : ℕ
  pub prev_hash : Text
  pub chain_hash : Text

-- The middleware's `_last_hash`, and the table in the order of insertion.
pub record State : Type 0 where
  pub last_hash : Text
  pub table : List Row

unfoldable pub payload : Text → Text → Text → Text → Text → ℕ → Text
payload prev_hash timestamp actor method path status =
    prev_hash
    ++ (b'|'
        ∷ (timestamp
            ++ (b'|' ∷ (actor ++ (b'|' ∷ (method ++ (b'|' ∷ (path ++ (b'|' ∷ show status)))))))))

pub record AuditRequest : Type 0 where
  pub headers : Dict String Text
  pub client_host : Option Text
  pub method : Text
  pub path : Text
  pub query : Text

skip_paths : List Text
unfolding codes
skip_paths =
    codes "/health" ∷ codes "/metrics" ∷ codes "/docs" ∷ codes "/redoc" ∷ codes "/openapi.json" ∷ []

-- `dispatch` up to the hand-over: `none` where the path is exempt. `uuid` is the fresh id, and
-- `status` and `elapsed_ms` are what the application answered.
pub partial_of : AuditRequest → (uuid : Text) → (status elapsed_ms : ℕ) → Option Partial
partial_of r uuid status elapsed_ms =
    let header = λ (name : String) (default : Text). Dict.get_or name default r.headers in
    let actor =
      or_else (header "x-api-key" [])
        (or_else (take 20 (header "authorization" [])) (codes "anonymous")) in
    if elem r.path skip_paths
    then none
    else some (record {
      id = header "x-request-id" uuid;
      actor = take 64 actor;
      client_ip = header "x-real-ip" (elim r.client_host [ none ↦ [] | some host ↦ host ]);
      method = r.method;
      path = take 1024 r.path;
      query = take 512 r.query;
      status = status;
      elapsed_ms = elapsed_ms;
      user_agent = take 256 (header "user-agent" []);
    })

-- The primary key and the unique constraint of the table.
pub has_id : Text → List Row → Bool
has_id id [] = false
has_id id (r ∷ rows) = text_eq r.part.id id || has_id id rows

has_hash : Text → List Row → Bool
has_hash hash [] = false
has_hash hash (r ∷ rows) = text_eq r.chain_hash hash || has_hash hash rows

pub accepts : Bool → Row → List Row → Bool
unfolding has_id has_hash
accepts db_works row table =
    db_works && (not (has_id row.part.id table) && not (has_hash row.chain_hash table))

-- `_write_sync`: the commit fails on a duplicate key, and wherever the database fails.
pub write_sync : Bool → Row → List Row → Bool × List Row
write_sync db_works row table =
    if accepts db_works row table then (true, table ++ (row ∷ [])) else (false, table)

pub record VerifyResult : Type 0 where
  pub ok : Bool
  pub entries_checked : ℕ
  pub first_broken_at : Option Text
  pub message : Text

pub broken : ℕ → Row → VerifyResult
broken i row = record {
  ok = false;
  entries_checked = i + 1;
  first_broken_at = some row.part.id;
  message =
      codes "Chain broken at entry #"
      ++ (show (i + 1) ++ (codes " (id=" ++ (row.part.id ++ codes ")")));
}

pub intact : ℕ → VerifyResult
intact n = record {
  ok = true;
  entries_checked = n;
  first_broken_at = none;
  message = codes "All " ++ (show n ++ codes " entries verified — chain is intact.");
}

module _ (lib : Library) (secret : Text) where
  unfoldable pub compute_chain_hash : Text → Text → Text → Text → Text → ℕ → Text
  unfolding payload
  compute_chain_hash prev_hash timestamp actor method path status =
      lib.hmac_sha256 secret (payload prev_hash timestamp actor method path status)

  -- What `verify_chain` recomputes for a row.
  unfoldable pub expected : Row → Text
  unfolding payload
  expected r = lib.hmac_sha256 secret (
      payload r.prev_hash (lib.read_isoformat r.timestamp) r.part.actor r.part.method r.part.path
        r.part.status)

  pub entry : State → Partial → ℕ → Row
  entry s p now = record {
    part = p;
    timestamp = now;
    prev_hash = s.last_hash;
    chain_hash =
        compute_chain_hash s.last_hash (lib.isoformat now) p.actor p.method p.path p.status;
  }

  -- `_append_to_chain`, which runs whole under the chain lock; `now` is read under the lock.
  pub append_to_chain : State → Partial → ℕ → Bool → State
  unfolding entry
  append_to_chain s p now db_works =
      let row = entry s p now in
      let (written, table) = write_sync db_works row s.table in
      if written
      then record s { last_hash = row.chain_hash; table = table }
      else record s { table = table }

  -- The loop of `verify_chain` over the rows from position `i`.
  unfoldable pub verify_rows : Text → ℕ → List Row → VerifyResult
  unfolding broken intact
  verify_rows prev_hash i [] = intact i
  verify_rows prev_hash i (row ∷ rows) =
      let rest = verify_rows row.chain_hash (i + 1) rows in
      if not (text_eq row.chain_hash (expected row)) || not (text_eq row.prev_hash prev_hash)
      then broken i row
      else rest

-- ORDER BY timestamp; rows of the same time keep their order.
insert_row : Row → List Row → List Row
insert_row r [] = r ∷ []
insert_row r (x ∷ rows) =
    if leb r.timestamp x.timestamp then r ∷ x ∷ rows else x ∷ insert_row r rows

unfoldable pub order_by_timestamp : List Row → List Row
unfolding insert_row
order_by_timestamp [] = []
order_by_timestamp (r ∷ rows) = insert_row r (order_by_timestamp rows)

unfoldable pub verify_chain : (lib : Library) (secret : Text) → List Row → VerifyResult
verify_chain lib secret table = verify_rows lib secret genesis 0 (order_by_timestamp table)

-- The last row's hash, in an order by time: what follows `default` along the rows.
abbrev pub tip : Text → List Row → Text
tip default [] = default
tip default (r ∷ rows) = tip r.chain_hash rows

-- `_load_last_chain_hash`, on startup.
unfoldable pub load_last_chain_hash : Bool → List Row → Text
load_last_chain_hash db_works table =
    if db_works then tip genesis (order_by_timestamp table) else genesis

-- `purge_old_entries`: `none` is the refusal of fewer than 180 days.
pub day : ℕ
day = 24 * 60 * 60 * 1000000

unfoldable pub keep_from : ℕ → List Row → List Row
keep_from cutoff [] = []
keep_from cutoff (r ∷ rows) =
    if ltb r.timestamp cutoff then keep_from cutoff rows else r ∷ keep_from cutoff rows

unfoldable pub purge_old_entries : (days now : ℕ) → State → Option State
unfolding day keep_from
purge_old_entries days now s =
    if ltb days 180 then none else some (record s { table = keep_from (now - days * day) s.table })

-- `reset_chain`, where the middleware is there and the commit works or raises. It holds the database's lock from before its
-- deletion until its end, and `_append_to_chain` takes that lock within the chain lock, which the
-- reset takes within the database's: each has happened whole before the other begins, or both wait
-- for good.
unfoldable pub reset_chain : Bool → State → State
reset_chain true s = record { last_hash = genesis; table = [] }
reset_chain false s = s
