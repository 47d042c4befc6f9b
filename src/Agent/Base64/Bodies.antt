-- ===== src/Agent/Base64/Bodies.antt =====
-- Which bodies the base64 check accepts.
use aiss_waf_server.Prelude.{
  ℕ, ◌*◌, ◌≤◌, ◌≡◌, refl, ◌||◌, none, some, ◌∷◌, length, le→leb, Bool-cases, inl, inr,
}
use aiss_waf_server.Prelude.Text.{Text, codes, contains, lower, strip_bytes}
use aiss_waf_server.Agent.Runtime.{Runtime}
use aiss_waf_server.Agent.Base64.{decode_body_if_base64, without}

module _ (rt : Runtime) where
  -- Where base64 decoding gives at least half as many bytes as the body has, as it does for every
  -- body that is wholly base64, the body is reported as not base64, whatever its declared type.
  decode_body_if_base64-large :
      (c : ℕ) (body content_type decoded : Text)
      → rt.b64decode (without 13 (without 10 (strip_bytes (c ∷ body)))) ≡ some decoded
      → length (c ∷ body) ≤ 2 * length decoded
      → decode_body_if_base64 rt (c ∷ body) content_type ≡ none
  unfolding decode_body_if_base64
  decode_body_if_base64-large c body content_type decoded d h =
      elim (Bool-cases (
        contains (lower content_type) (codes "multipart")
        || contains (lower content_type) (codes "text/html"))) [
          | inl e ↦ rw e refl
          | inr e ↦ rw (e, d, le→leb (length (c ∷ body)) (2 * length decoded) h) refl
        ]
