-- ===== src/Server/CveSync/Entry.antt =====
-- The pattern dicts of server/app/cve_sync.py and the rows of cve_signatures.
use aiss_waf_server.Prelude.{Bool, Option, none, some}
use aiss_waf_server.Prelude.Text.{Text}
use aiss_waf_server.Agent.Floats.{Floats}

-- A pattern dict; `description` is the empty text where the key is missing.
pub record Entry (fl : Floats) : Type 0 where
  pub cve_id : Text
  pub name : Text
  pub pattern : Text
  pub flags : Text
  pub severity : Text
  pub cvss : fl.F
  pub affected_product : Text
  pub source : Text
  pub description : Text

-- A row; its id and its times are left out.
pub record Row (fl : Floats) : Type 0 where
  pub entry : Entry fl
  pub active : Bool

-- d.get(key, default)
abbrev pub get {ℓ} : {A : Type ℓ} → Option A → A → A
get none d = d
get (some a) d = a
