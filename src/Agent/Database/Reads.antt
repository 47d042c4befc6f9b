-- ===== src/Agent/Database/Reads.antt =====
-- What the reads of agent/db/duckdb_store.py see of each statement.
use aiss_waf_server.Prelude.{
  ℕ, ◌≤◌, ◌≡◌, refl, ◌∙◌, Bool, true, false, Option, none, some, [], ◌∷◌, ◌++◌, ltb, arith,
  if◌then◌else◌,
}
use aiss_waf_server.Prelude.Text.{Text}
use aiss_waf_server.Prelude.Dict.{Eq, Dict, delete}
use aiss_waf_server.Prelude.Dict.{text_keys}
use aiss_waf_server.Agent.Database.{
  IpRow, HashRow, Tables, Statement, set_ip_verdict, cleanup_expired_ips, upsert_signature,
  deactivate_signature, store_file_hash, set_config, store_event, replace, select, delete_expired,
  execute, get_ip_verdict, get_file_hash, get_config,
}

abbrev pub filtered {ℓ} : {A : Type ℓ} → (A → Bool) → A → Option A
filtered keep a = if keep a then some a else none

abbrev pub live : ℕ → IpRow → Bool
live now r = ltb now r.expires_at

module _ {K V : Type 0} ⦃e : Eq K⦄ (keep : V → Bool) where
  select-append :
      (j k : K) (v : V) (d : Dict K V)
      → select keep j (d ++ ((k, v) ∷ [])) ≡ (elim (select keep j d) [
        | some w ↦ some w
        | none ↦ if e.beq k j then filtered keep v else none
      ])
  unfolding select
  select-append j k v [] = ground arith
  select-append j k v ((i, w) ∷ d) = ground (arith, select-append j k v d)

  select-delete :
      (k j : K) (d : Dict K V)
      → select keep j (delete k d) ≡ (if e.beq k j then none else select keep j d)
  unfolding select delete
  select-delete k j [] = ground arith
  select-delete k j ((i, w) ∷ d) =
      ground (arith, e.beq_iff k j, e.beq_iff i k, e.beq_iff i j, select-delete k j d)

  pub select-replace :
      (k j : K) (v : V) (d : Dict K V)
      → select keep j (replace k v d) ≡ (if e.beq k j then filtered keep v else select keep j d)
  unfolding replace
  select-replace k j v d = rw (select-append j k v (delete k d), select-delete k j d) (ground arith)

-- A row that has expired is not seen later.
pub select-delete_expired :
    (now later : ℕ) (ip : Text) (d : Dict Text IpRow)
    → now ≤ later
    → select (live later) ip (delete_expired now d) ≡ select (live later) ip d
unfolding select delete_expired
select-delete_expired now later ip [] h = refl
select-delete_expired now later ip ((j, r) ∷ d) h =
    ground (arith, select-delete_expired now later ip d h)

-- What a read sees after a statement that may write its key.
abbrev pub override {ℓ} : {A : Type ℓ} → (A → Bool) → Option A → Option A → Option A
override keep none old = old
override keep (some a) old = filtered keep a

-- A read of one key, until the time `horizon`, and how each statement changes it.
pub record View (F : Type 0) (horizon : ℕ) : Type 1 where
  pub V : Type 0
  pub read : Tables F → Option V
  pub written : Statement F → Option V
  pub keep : V → Bool
  pub read-execute :
      (now : ℕ) (s : Statement F) (t : Tables F)
      → now ≤ horizon
      → read (execute now s t) ≡ override keep (written s) (read t)

abbrev when {ℓ} : {A : Type ℓ} → Bool → A → Option A
when b a = if b then some a else none

override-when :
    {V : Type 0} (keep : V → Bool) (b : Bool) (v : V) (old : Option V)
    → (if b then filtered keep v else old) ≡ override keep (when b v) old
override-when keep true v old = refl
override-when keep false v old = refl

module _ {F : Type 0} where
  -- The row that a statement writes for an address, a hash and a key.
  unfoldable pub ip_written : Text → Statement F → Option IpRow
  ip_written ip (set_ip_verdict j r) = when (text_keys.beq j ip) r
  ip_written ip _ = none

  unfoldable pub hash_written : Text → Statement F → Option HashRow
  hash_written sha (store_file_hash j r) = when (text_keys.beq j sha) r
  hash_written sha _ = none

  unfoldable pub config_written : Text → Statement F → Option Text
  config_written key (set_config j v) = when (text_keys.beq j key) v
  config_written key _ = none

  pub get_ip_verdict-execute :
      (later : ℕ) (ip : Text) (now : ℕ) (s : Statement F) (t : Tables F)
      → now ≤ later
      → get_ip_verdict later ip (execute now s t)
        ≡ override (live later) (ip_written ip s) (get_ip_verdict later ip t)
  unfolding get_ip_verdict execute ip_written
  get_ip_verdict-execute later ip now (set_ip_verdict j r) t h =
      select-replace (live later) j ip r t.ip_reputation
      ∙ override-when (live later) (text_keys.beq j ip) r _
  get_ip_verdict-execute later ip now cleanup_expired_ips t h =
      select-delete_expired now later ip t.ip_reputation h
  get_ip_verdict-execute later ip now (upsert_signature i cve p sev) t h = refl
  get_ip_verdict-execute later ip now (deactivate_signature cve) t h = refl
  get_ip_verdict-execute later ip now (store_file_hash j r) t h = refl
  get_ip_verdict-execute later ip now (set_config j v) t h = refl
  get_ip_verdict-execute later ip now (store_event e) t h = refl

  pub get_file_hash-execute :
      (sha : Text) (now : ℕ) (s : Statement F) (t : Tables F)
      → get_file_hash sha (execute now s t)
        ≡ override (λ _. true) (hash_written sha s) (get_file_hash sha t)
  unfolding get_file_hash execute hash_written
  get_file_hash-execute sha now (store_file_hash j r) t =
      select-replace (λ _. true) j sha r t.file_hashes
      ∙ override-when (λ _. true) (text_keys.beq j sha) r _
  get_file_hash-execute sha now (set_ip_verdict j r) t = refl
  get_file_hash-execute sha now cleanup_expired_ips t = refl
  get_file_hash-execute sha now (upsert_signature i cve p sev) t = refl
  get_file_hash-execute sha now (deactivate_signature cve) t = refl
  get_file_hash-execute sha now (set_config j v) t = refl
  get_file_hash-execute sha now (store_event e) t = refl

  pub get_config-execute :
      (key : Text) (now : ℕ) (s : Statement F) (t : Tables F)
      → get_config key (execute now s t)
        ≡ override (λ _. true) (config_written key s) (get_config key t)
  unfolding get_config execute config_written
  get_config-execute key now (set_config j v) t =
      select-replace (λ _. true) j key v t.agent_config
      ∙ override-when (λ _. true) (text_keys.beq j key) v _
  get_config-execute key now (set_ip_verdict j r) t = refl
  get_config-execute key now cleanup_expired_ips t = refl
  get_config-execute key now (upsert_signature i cve p sev) t = refl
  get_config-execute key now (deactivate_signature cve) t = refl
  get_config-execute key now (store_file_hash j r) t = refl
  get_config-execute key now (store_event e) t = refl

  abbrev pub ip_view : (horizon : ℕ) → Text → View F horizon
  ip_view horizon ip = record {
    V = IpRow;
    read = get_ip_verdict horizon ip;
    written = ip_written ip;
    keep = live horizon;
    read-execute = get_ip_verdict-execute horizon ip;
  }

  abbrev pub hash_view : (horizon : ℕ) → Text → View F horizon
  hash_view horizon sha = record {
    V = HashRow;
    read = get_file_hash sha;
    written = hash_written sha;
    keep = λ _. true;
    read-execute = λ now s t h. get_file_hash-execute sha now s t;
  }

  abbrev pub config_view : (horizon : ℕ) → Text → View F horizon
  config_view horizon key = record {
    V = Text;
    read = get_config key;
    written = config_written key;
    keep = λ _. true;
    read-execute = λ now s t h. get_config-execute key now s t;
  }
