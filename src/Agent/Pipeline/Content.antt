-- ===== src/Agent/Pipeline/Content.antt =====
-- The inspection of bodies of agent/security/pipeline.py, over the file-hash cache.
use aiss_waf_server.Prelude.{
  ℕ, true, false, ◌&&◌, not, Option, none, some, List, [], ◌∷◌, ◌++◌, length, take, leb, is_empty,
  if◌then◌else◌,
}
use aiss_waf_server.Prelude.Text.{Text, codes}
use aiss_waf_server.Prelude.Dict.{string_eq}
use aiss_waf_server.Agent.Runtime.{Runtime}
use aiss_waf_server.Agent.Floats.{Floats}
use aiss_waf_server.Agent.Request.{Request, Body, bytes, str}
use aiss_waf_server.Agent.MagicBytes.{validate_content_type}
use aiss_waf_server.Agent.Yara
use aiss_waf_server.Agent.Yara.{Scanner}
use aiss_waf_server.Agent.Pipeline.Defs.{
  Verdict, Cached, HashStore, Pipeline, full_scan_limit, sample_scan_limit, should_inspect_content,
  prepare_full_scan, prepare_sampled_scan, make_verdict,
}

module _ (rt : Runtime) (fl : Floats) (hs : HashStore) where
  -- The verdict of a cached hash: `none` where it is known to be clean.
  unfoldable pub cached_verdict : Text → Text → ℕ → Cached → Option (Verdict fl)
  unfolding codes
  cached_verdict mode sha ms c =
      if c.malicious
      then some (
          make_verdict fl mode 4 none c.threat_name
            (codes "Known malicious file hash (SHA-256: " ++ (take 16 sha ++ codes "...)"))
            (fl.hundredths 0) (some sha) ms)
      else none

  -- Magic bytes and YARA on one target: the name to cache as malicious, and the verdict.
  unfoldable pub scan_target : Text → Scanner → Text → ℕ → Text → Option (Option Text × Verdict fl)
  unfolding codes
  scan_target mode scanner content_type ms target =
      let sha = rt.sha256 target in
      let magic = validate_content_type target content_type in
      if magic.should_block
      then some (
        some magic.reason,
        make_verdict fl mode 4 none none magic.reason (fl.hundredths 0) (some sha) ms,
      )
      else elim (if Yara.is_ready scanner then Yara.scan scanner target else none) [
        | none ↦ none
        | some y ↦ some (
          some y.rule_name,
          make_verdict fl mode 4 none (some y.rule_name)
              (codes "YARA rule matched: " ++ (y.rule_name ++ (codes " — " ++ y.description)))
              (fl.hundredths 0) (some sha) ms,
        )
      ]

  -- One round of the loop of `_inspect_content`: the cache, then the scan of the target, then the
  -- rest of the loop.
  unfoldable pub scan_step :
      Text
      → Text
      → ℕ
      → hs.Db
      → Option Cached
      → Option (Option Text × Verdict fl)
      → Option (Verdict fl) × hs.Db
      → Option (Verdict fl) × hs.Db
  scan_step mode sha ms db (some cached) scanned rest = (cached_verdict mode sha ms cached, db)
  scan_step mode sha ms db none (some (name, v)) rest =
      (some v, hs.store_file_hash db sha (record { malicious = true; threat_name = name }))
  scan_step mode sha ms db none none rest = rest

  abbrev pub mark_clean : hs.Db → Text → hs.Db
  mark_clean db sha = hs.store_file_hash db sha (record { malicious = false; threat_name = none })

  -- The loop of `_inspect_content`. The entropy of a target is only logged.
  unfoldable pub scan_targets :
      Text → Scanner → Text → ℕ → hs.Db → List Text → Option (Verdict fl) × hs.Db
  scan_targets mode scanner content_type ms db [] = (none, db)
  scan_targets mode scanner content_type ms db ([] ∷ targets) =
      scan_targets mode scanner content_type ms db targets
  scan_targets mode scanner content_type ms db ((c ∷ t) ∷ targets) =
      let sha = rt.sha256 (c ∷ t) in
      scan_step mode sha ms db (hs.get_file_hash db sha)
        (scan_target mode scanner content_type ms (c ∷ t))
        (scan_targets mode scanner content_type ms (mark_clean db sha) targets)

  -- A body above the second limit is not inspected.
  unfoldable pub inspect_content :
      Pipeline fl → Text → Text → ℕ → hs.Db → Option (Verdict fl) × hs.Db
  inspect_content p body content_type ms db =
      if leb (length body) full_scan_limit
      then scan_targets p.mode p.scanner content_type ms db (prepare_full_scan rt body content_type)
      else if leb (length body) sample_scan_limit
      then scan_targets p.mode p.scanner content_type ms db (prepare_sampled_scan body)
      else (none, db)

  unfoldable pub body_bytes : Body → Text
  body_bytes (bytes b) = b
  body_bytes (str s) = rt.encode_utf8 s

  unfoldable pub content_stage : Pipeline fl → Request → ℕ → hs.Db → Option (Verdict fl) × hs.Db
  unfolding body_bytes
  content_stage p r ms db =
      let body = body_bytes r.body in
      if not (is_empty body) && should_inspect_content r.content_type
      then inspect_content p body r.content_type ms db
      else (none, db)
