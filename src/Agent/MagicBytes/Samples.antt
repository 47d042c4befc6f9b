-- ===== src/Agent/MagicBytes/Samples.antt =====
-- Two contents and what the check says of them.
use aiss_waf_server.Prelude.{◌≡◌, refl, true, false, [], ◌∷◌}
use aiss_waf_server.Agent.MagicBytes.{
  judge, find_signature, has_magic, magic_signatures, detect_file_type, validate_content_type,
  is_spoof, is_dangerous_type, expected_types,
}
use aiss_waf_server.Prelude.Text.{text_eq, codes}

-- A Windows executable.
pub executable_blocked : (validate_content_type (77 ∷ 90 ∷ []) []).should_block ≡ true
unfolding validate_content_type detect_file_type find_signature has_magic magic_signatures judge
    is_spoof is_dangerous_type expected_types text_eq codes
executable_blocked = refl

-- A content without a signature.
pub plain_passes : (validate_content_type (1 ∷ []) []).should_block ≡ false
unfolding validate_content_type detect_file_type find_signature has_magic magic_signatures judge
    is_spoof is_dangerous_type expected_types text_eq codes
plain_passes = refl
