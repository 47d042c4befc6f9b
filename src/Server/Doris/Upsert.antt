-- ===== src/Server/Doris/Upsert.antt =====
-- The single-row writes of server/app/doris.py over the MySQL protocol.
use aiss_waf_server.Prelude.{◌≡◌, refl, Option, none, some}
use aiss_waf_server.Prelude.Text.{Text}

-- pymysql: `T` is the database, `none` an exception. `database` is what a connection leaves behind.
-- The end of a `with` block over a connection closes it, and a closed connection refuses a commit.
pub record Driver (R T : Type 0) : Type 1 where
  pub Connection : Type 0
  pub connect : T → Option Connection
  pub execute : R → Connection → Option Connection
  pub close : Connection → Connection
  pub commit : Connection → Option Connection
  pub database : Connection → T
  pub commit-close : (c : Connection) → commit (close c) ≡ none

-- What the log says: nothing, or that the upsert failed.
pub data Outcome : Type 0 where
  done failed : Outcome

pub record AgentRow : Type 0 where
  pub id : Text
  pub hostname : Text
  pub ip : Text
  pub server_type : Text
  pub version : Text
  pub mode : Text
  pub last_seen : Text
  pub created_at : Text

module _ {R T : Type 0} (d : Driver R T) where
  -- `conn.commit()`, after the `with` block
  unfoldable pub commit_closed : d.Connection → Outcome × T
  commit_closed c = elim (d.commit c) [
    | none ↦ (failed, d.database c)
    | some c' ↦ (done, d.database c')
  ]

  -- The `with` block closes the connection also where the statement raises.
  unfoldable pub after_execute : d.Connection → Option d.Connection → Outcome × T
  unfolding commit_closed
  after_execute c none = (failed, d.database (d.close c))
  after_execute c (some c') = commit_closed (d.close c')

  unfoldable pub after_connect : R → T → Option d.Connection → Outcome × T
  unfolding after_execute
  after_connect row t none = (failed, t)
  after_connect row t (some c) = after_execute c (d.execute row c)

  -- `upsert_agent` and `upsert_cve_signature`, which differ in their statements.
  unfoldable pub upsert : R → T → Outcome × T
  unfolding after_connect
  upsert row t = after_connect row t (d.connect t)

  commit_closed-failed : (c : d.Connection) → (commit_closed (d.close c)).0 ≡ failed
  unfolding commit_closed
  commit_closed-failed c = rw (d.commit-close c, commit_closed) refl

  after_execute-failed :
      (c : d.Connection) (o : Option d.Connection) → (after_execute c o).0 ≡ failed
  unfolding after_execute
  after_execute-failed c none = refl
  after_execute-failed c (some c') = commit_closed-failed c'

  after_connect-failed :
      (row : R) (t : T) (o : Option d.Connection) → (after_connect row t o).0 ≡ failed
  unfolding after_connect
  after_connect-failed row t none = refl
  after_connect-failed row t (some c) = after_execute-failed c (d.execute row c)

  -- Every upsert ends in the handler of exceptions: the connection is closed before the commit.
  upsert-failed : (row : R) (t : T) → (upsert row t).0 ≡ failed
  unfolding upsert
  upsert-failed row t = after_connect-failed row t (d.connect t)

unfoldable pub upsert_agent : {T : Type 0} → Driver AgentRow T → AgentRow → T → Outcome × T
upsert_agent d = upsert d
