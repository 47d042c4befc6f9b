-- ===== src/Agent/Anomaly/Score.antt =====
-- `_compute_score` of agent/security/tier3_ml.py.
use aiss_waf_server.Prelude.{ℕ, Bool, ◌&&◌, List, [], ◌∷◌, ◌++◌, ltb, if◌then◌else◌}
use aiss_waf_server.Prelude.Text.{Text, codes}
use aiss_waf_server.Prelude.Show.{show}
use aiss_waf_server.Agent.Floats.{Floats, lt, minimum}

-- The features that the score reads; a flag 0 or 1 is a Boolean.
pub record Features (fl : Floats) : Type 0 where
  pub null_bytes : Bool
  pub double_encoded : Bool
  pub encoded_char_count : ℕ
  pub uri_length : ℕ
  pub query_entropy : fl.F
  pub body_entropy : fl.F
  pub body_length : ℕ
  pub ua_has_scanner : Bool
  pub ua_suspicious : Bool
  pub ua_empty : Bool
  pub unusual_method : Bool
  pub has_base64_body : Bool
  pub excessive_params : Bool
  pub param_count : ℕ
  pub special_char_ratio : fl.F
  pub has_proxy_headers : Bool
  pub unicode_escape : Bool

module _ (fl : Floats) where
  -- The running total and the reasons so far.
  abbrev pub Tally : Type 0
  Tally = fl.F × List Text

  -- if c: total += weight / 100; reasons.append(reason)
  pub weigh : Bool → ℕ → Text → Tally → Tally
  weigh c weight reason (total, reasons) =
      if c
      then (fl.add total (fl.hundredths weight), reasons ++ (reason ∷ []))
      else (total, reasons)

  -- The elif of the URI length adds 0.2 and gives no reason.
  pub weigh_uri : ℕ → Tally → Tally
  unfolding codes
  weigh_uri n (total, reasons) =
      if ltb 2000 n
      then (
        fl.add total (fl.hundredths 40),
        reasons ++ ((codes "suspicious URI length (" ++ (show n ++ codes " chars)")) ∷ []),
      )
      else if ltb 1000 n
      then (fl.add total (fl.hundredths 20), reasons)
      else (total, reasons)

  -- if has_proxy_headers and total > 0.2
  pub weigh_proxy : Bool → Tally → Tally
  unfolding weigh codes
  weigh_proxy proxied (total, reasons) =
      weigh (proxied && lt fl (fl.hundredths 20) total) 10
        (codes "proxy headers with suspicious activity") (total, reasons)

  pub transport_score : Features fl → Tally → Tally
  unfolding weigh weigh_uri codes
  transport_score f t =
      let t1 = weigh f.null_bytes 70 (codes "null bytes in request") t in
      let t2 = weigh f.double_encoded 50 (codes "double URL encoding detected") t1 in
      let t3 =
        weigh (ltb 30 f.encoded_char_count) 25
          (codes "excessive URL encoding ("
            ++ (show f.encoded_char_count ++ codes " encoded chars)"))
          t2 in
      let t4 = weigh_uri f.uri_length t3 in
      let t5 =
        weigh (lt fl (fl.hundredths 450) f.query_entropy) 30
          (codes "high query string entropy (" ++ (fl.format 2 f.query_entropy ++ codes ")")) t4 in
      weigh (lt fl (fl.hundredths 550) f.body_entropy && ltb 100 f.body_length) 25
        (codes "high body entropy (" ++ (fl.format 2 f.body_entropy ++ codes ")")) t5

  pub client_score : Features fl → Tally → Tally
  unfolding weigh codes
  client_score f t =
      let t1 = weigh f.ua_has_scanner 35 (codes "known security scanner user-agent") t in
      let t2 = weigh f.ua_suspicious 40 (codes "suspicious user-agent pattern") t1 in
      let t3 = weigh f.ua_empty 15 (codes "empty user-agent") t2 in
      let t4 = weigh f.unusual_method 20 (codes "unusual HTTP method") t3 in
      let t5 = weigh f.has_base64_body 20 (codes "Base64-encoded content in body") t4 in
      weigh f.excessive_params 20
        (codes "excessive parameter count (" ++ (show f.param_count ++ codes ")")) t5

  pub content_score : Features fl → Tally → Tally
  unfolding weigh weigh_proxy codes
  content_score f t =
      let t1 =
        weigh (lt fl (fl.hundredths 15) f.special_char_ratio) 30
          (codes "high special character ratio ("
            ++ (fl.format 2 f.special_char_ratio ++ codes ")"))
          t in
      let t2 = weigh_proxy f.has_proxy_headers t1 in
      weigh f.unicode_escape 20 (codes "unicode escape sequences in request") t2

  pub compute_score : Features fl → Tally
  compute_score f =
      let (total, reasons) =
        content_score f (client_score f (transport_score f (fl.hundredths 0, []))) in
      (minimum fl total (fl.hundredths 100), reasons)
