-- ===== src/Agent/Database/Cache.antt =====
-- The file-hash cache that the pipeline uses, agent/security/pipeline.py, over the table file_hashes
-- of agent/db/duckdb_store.py once the writer has written.
use aiss_waf_server.Prelude.{
  ◌≡◌, refl, ap, ◌∙◌, Bool, true, false, Option, none, some, Bool-cases, inl, inr, if◌then◌else◌,
}
use aiss_waf_server.Prelude.Text.{Text, codes, text_eq}
use aiss_waf_server.Prelude.Dict.{text_keys}
use aiss_waf_server.Agent.Pipeline.Defs.{Cached, HashStore}
use aiss_waf_server.Agent.Pipeline.Replay.{IsStore}
use aiss_waf_server.Agent.Database.{HashRow, Tables, store_file_hash, execute, get_file_hash}
use aiss_waf_server.Agent.Database.Reads.{select-replace}

word : Bool → Text
unfolding codes
word b = if b then codes "MALICIOUS" else codes "CLEAN"

word-read : (b : Bool) → text_eq (word b) (codes "MALICIOUS") ≡ b
unfolding word text_eq codes
word-read true = refl
word-read false = refl

hash_row : Cached → HashRow
unfolding word
hash_row c = record { verdict = word c.malicious; threat_name = c.threat_name }

cached_of : Option HashRow → Option Cached
unfolding codes
cached_of none = none
cached_of (some r) =
    some (record { malicious = text_eq r.verdict (codes "MALICIOUS"); threat_name = r.threat_name })

-- A row that is stored is read as it was.
cached_of-hash_row : (c : Cached) → cached_of (some (hash_row c)) ≡ some c
unfolding cached_of hash_row
cached_of-hash_row c =
    ap (λ b. some (record { malicious = b; threat_name = c.threat_name })) (word-read c.malicious)

module _ (F : Type 0) where
  unfoldable pub hash_store : HashStore
  unfolding hash_row cached_of
  hash_store = record {
    Db = Tables F;
    get_file_hash = λ db sha. cached_of (get_file_hash sha db);
    store_file_hash = λ db sha c. execute 0 (store_file_hash sha (hash_row c)) db;
  }

  pub hash_store-IsStore : IsStore hash_store
  unfolding hash_store execute get_file_hash
  hash_store-IsStore db k c j =
      ap cached_of (select-replace (λ _. true) k j (hash_row c) db.file_hashes)
      ∙ (elim (Bool-cases (text_eq k j)) [
        | inl e ↦ rw e (cached_of-hash_row c)
        | inr e ↦ rw e refl
      ])
