-- ===== src/Server/CveSync/Product.antt =====
-- The detection regexes made of product names, `_product_to_pattern` of server/app/cve_sync.py.
use aiss_waf_server.Prelude.{
  ℕ, Bool, false, ◌&&◌, ◌||◌, not, Option, none, some, List, [], ◌∷◌, ◌++◌, length, ltb, leb, ◌==◌,
  map, if◌then◌else◌, is_empty,
}
use mathlib.Core.List.{reverse}
use aiss_waf_server.Prelude.Text.{Text, codes, elem, lower, strip, is_space}
use aiss_waf_server.Server.Auth.{words}

unfoldable pub generic_words : List Text
unfolding codes
generic_words = map codes (
    "code" ∷ "core" ∷ "base" ∷ "host" ∷ "main" ∷ "type" ∷ "test" ∷ "data" ∷ "file" ∷ "user" ∷ "open"
    ∷ "http" ∷ "https" ∷ "html" ∷ "java" ∷ "linux" ∷ "ruby" ∷ "perl" ∷ "python" ∷ "golang" ∷ "swift"
    ∷ "rust" ∷ "node" ∷ "web" ∷ "net" ∷ "lib" ∷ "app" ∷ "api" ∷ "run" ∷ "get" ∷ "set" ∷ "new"
    ∷ "old" ∷ "via" ∷ "key" ∷ "out" ∷ "log" ∷ "use" ∷ "php" ∷ "all" ∷ "any" ∷ "some" ∷ "from"
    ∷ "this" ∷ "that" ∷ "with" ∷ "have" ∷ "been" ∷ "will" ∷ "more" ∷ "over" ∷ "into" ∷ "also"
    ∷ "back" ∷ "read" ∷ "write" ∷ "null" ∷ "true" ∷ "false" ∷ "none" ∷ "text" ∷ "name" ∷ "path"
    ∷ "home" ∷ "root" ∷ "version" ∷ "windows" ∷ "driver" ∷ "stack" ∷ "buffer" ∷ "overflow"
    ∷ "remote" ∷ "local" ∷ "server" ∷ "client" ∷ "system" ∷ "service" ∷ "manager" ∷ "module"
    ∷ "plugin" ∷ "package" ∷ "library" ∷ [])

unfoldable pub generic_full : List Text
unfolding codes
generic_full = map codes ("" ∷ "n/a" ∷ "unknown" ∷ "various" ∷ "multiple" ∷ "all" ∷ [])

-- re.sub(r"[^a-z0-9\s_\-]", "", s)
is_kept : ℕ → Bool
is_kept c =
    (leb b'a' c && leb c b'z') || (leb b'0' c && leb c b'9') || is_space c || c == b'_' || c == b'-'

sanitise : Text → Text
unfolding is_kept is_space
sanitise [] = []
sanitise (c ∷ s) = if is_kept c then c ∷ sanitise s else sanitise s

-- tok.strip("_-")
is_edge : ℕ → Bool
is_edge c = c == b'_' || c == b'-'

lstrip_edges : Text → Text
unfolding is_edge
lstrip_edges [] = []
lstrip_edges (c ∷ s) = if is_edge c then lstrip_edges s else c ∷ s

unfoldable pub strip_edges : Text → Text
unfolding lstrip_edges
strip_edges s = reverse (lstrip_edges (reverse (lstrip_edges s)))

-- The test of a token that is stripped of its edges.
unfoldable pub is_specific : Text → Bool
unfolding generic_words elem
is_specific tok = leb 5 (length tok) && not (elem tok generic_words)

-- The loop over the tokens.
unfoldable pub choose : List Text → Option Text
unfolding strip_edges is_specific
choose [] = none
choose (tok ∷ toks) = if is_specific (strip_edges tok) then some (strip_edges tok) else choose toks

-- re.escape
is_special : ℕ → Bool
unfolding codes
is_special c = any_of (codes "()[]{}?*+-|^$\\.&~# \t\n\r") || c == 11 || c == 12
  where
    any_of : Text → Bool
    any_of [] = false
    any_of (d ∷ ds) = d == c || any_of ds

unfoldable pub escape : Text → Text
unfolding is_special
escape [] = []
escape (c ∷ s) = if is_special c then b'\\' ∷ (c ∷ escape s) else c ∷ escape s

escaped : Option Text → Option Text
unfolding escape
escaped none = none
escaped (some tok) = some (escape tok)

-- The choice from the name in lower case.
from_combined : Text → Option Text
unfolding generic_full elem sanitise strip choose words escaped
from_combined combined =
    if elem combined generic_full || ltb (length combined) 4
    then none
    else if is_empty (strip (sanitise combined))
    then none
    else escaped (choose (words (strip (sanitise combined))))

-- `none` is a name too generic to be a pattern.
unfoldable pub product_to_pattern : (product vendor : Text) → Option Text
unfolding from_combined strip lower
product_to_pattern product vendor = from_combined (lower (strip (vendor ++ (b' ' ∷ product))))
