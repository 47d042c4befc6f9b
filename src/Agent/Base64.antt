-- ===== src/Agent/Base64.antt =====
-- agent/security/content/base64_inspect.py.
pub mod Bodies
use aiss_waf_server.Prelude.{
  ℕ, ◌+◌, ◌-◌, ◌*◌, ◌/◌, ◌%◌, zero, suc, Bool, true, false, ◌||◌, Option, none, some, List, [], ◌∷◌,
  ◌++◌, length, take, drop, ltb, leb, ◌==◌, is_empty, if◌then◌else◌,
}
use aiss_waf_server.Prelude.Text.{Text, codes, contains, lower, strip_bytes, is_space_byte}
use aiss_waf_server.Agent.Runtime.{Regex, Runtime, exact_case}

b64_pattern : Regex
b64_pattern =
    exact_case "(?:[A-Za-z0-9+/]{4})*(?:[A-Za-z0-9+/]{2}==|[A-Za-z0-9+/]{3}=|[A-Za-z0-9+/]{4})"

abbrev pub min_b64_length : ℕ
min_b64_length = 48

-- The loop over the matches.
pub decode_candidates : Runtime → List Text → List Text
unfolding codes
decode_candidates rt [] = []
decode_candidates rt (m ∷ ms) =
    let rest = decode_candidates rt ms in
    if ltb (length m) min_b64_length then rest else elim (rt.b64decode (m ++ codes "==")) [
      | none ↦ rest
      | some raw ↦ if leb 16 (length raw) then raw ∷ rest else rest
    ]

pub extract_b64_candidates : Runtime → Text → List Text
unfolding decode_candidates b64_pattern
extract_b64_candidates rt body =
    decode_candidates rt (rt.find_all b64_pattern (rt.decode_utf8 body))

-- s.replace(c, b"")
pub without : ℕ → Text → Text
without c [] = []
without c (a ∷ s) = if a == c then without c s else a ∷ without c s

pub decode_body_if_base64 : Runtime → Text → Text → Option Text
unfolding without codes
decode_body_if_base64 rt [] content_type = none
decode_body_if_base64 rt (c ∷ body) content_type =
    let ct = lower content_type in
    if contains ct (codes "multipart") || contains ct (codes "text/html")
    then none
    else elim (rt.b64decode (without 13 (without 10 (strip_bytes (c ∷ body))))) [
      | none ↦ none
      | some decoded ↦ if leb (length (c ∷ body)) (2 * length decoded) then none else some decoded
    ]

-- re.sub(rb"[\s\r\n]", b"", data)
remove_spaces : Text → Text
remove_spaces [] = []
remove_spaces (a ∷ s) = if is_space_byte a then remove_spaces s else a ∷ remove_spaces s

pads : ℕ → Text
pads zero = []
pads (suc n) = b'=' ∷ pads n

-- The chunks of `clean`, padded to a multiple of four and decoded; a chunk that cannot be decoded
-- is left out. Each round takes at least one byte, so the length of `clean` rounds are enough.
decode_rounds : Runtime → ℕ → ℕ → Text → List Text
unfolding pads
decode_rounds rt zero size clean = []
decode_rounds rt (suc f) size clean =
    let rest = decode_rounds rt f size (drop size clean) in
    let chunk = take size clean in
    if is_empty chunk
    then []
    else elim (rt.b64decode (chunk ++ pads ((4 - length chunk % 4) % 4))) [
      | none ↦ rest
      | some raw ↦ raw ∷ rest
    ]

-- `none` is the ValueError of `range` at a step of 0.
pub stream_decode_chunks : Runtime → Text → ℕ → Option (List Text)
unfolding decode_rounds remove_spaces
stream_decode_chunks rt content chunk_size =
    let clean = remove_spaces content in
    let size = chunk_size / 3 * 4 in
    if size == 0 then none else some (decode_rounds rt (length clean) size clean)
