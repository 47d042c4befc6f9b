-- ===== src/Agent/MagicBytes/Detection.antt =====
-- What the content check blocks, and which signatures it can report.
use aiss_waf_server.Prelude.{
  ◌≡◌, refl, Bool, false, ◌||◌, Option, none, some, Bool-cases, Option-cases, inl, inr,
}
use aiss_waf_server.Prelude.Text.{Text}
use aiss_waf_server.Agent.MagicBytes.{
  Signature, detect_file_type, is_dangerous_type, expected_types, is_spoof, judge, declared_type,
  validate_content_type,
}

abbrev pub is_blocked_kind : Text → Option Signature → Bool
is_blocked_kind ct none = false
is_blocked_kind ct (some s) = is_dangerous_type s.kind || is_spoof s.kind (expected_types ct)

judge_lem :
    (ct : Text) (s : Signature)
    → (judge ct s).should_block ≡ (is_dangerous_type s.kind || is_spoof s.kind (expected_types ct))
unfolding judge
judge_lem ct s = elim (Bool-cases (is_dangerous_type s.kind)) [
  | inl e ↦ rw e refl
  | inr e ↦ rw e (elim (Bool-cases (is_spoof s.kind (expected_types ct))) [
    | inl f ↦ rw f refl
    | inr f ↦ rw f refl
  ])
]

-- Content is blocked exactly if its first bytes have a signature whose type is dangerous, whatever
-- the declared type, or is not among the types that the declared type allows; a declared type that
-- is not in the table, or that allows none, is no reason to block.
validate_content_type_lem :
    (content content_type : Text)
    → (validate_content_type content content_type).should_block
      ≡ is_blocked_kind (declared_type content_type) (detect_file_type content)
unfolding validate_content_type
validate_content_type_lem content content_type = elim (Option-cases (detect_file_type content)) [
  | inl n ↦ rw (n, validate_content_type) refl
  | inr (s, e) ↦ rw (e, validate_content_type) (judge_lem (declared_type content_type) s)
]
