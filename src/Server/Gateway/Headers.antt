-- ===== src/Server/Gateway/Headers.antt =====
-- The headers that server/app/middleware/security_headers.py puts on a response.
use aiss_waf_server.Prelude.{Bool, String, List, [], ◌∷◌, map, if◌then◌else◌, ℕ}
use aiss_waf_server.Prelude.Text.{Text, codes, starts_with, join}
use aiss_waf_server.Prelude.Dict
use aiss_waf_server.Prelude.Dict.{Dict, string_eq}

-- Header names are compared without regard to case, so they are written in lower case.
abbrev pub Headers : Type 0
Headers = Dict String Text

pub record Response : Type 0 where
  pub status : ℕ
  pub headers : Headers

-- response.headers[k] = v for each pair in turn
unfoldable pub set_all : List (String × Text) → Headers → Headers
set_all [] h = h
set_all ((k, v) ∷ pairs) h = set_all pairs (Dict.insert k v h)

unfoldable pub content_security_policy : Text
content_security_policy = join [] (
    map codes (
      "default-src 'self'; " ∷ "script-src 'self' 'unsafe-inline' cdn.jsdelivr.net; "
      ∷ "style-src 'self' 'unsafe-inline' cdn.jsdelivr.net fonts.googleapis.com; "
      ∷ "font-src 'self' fonts.gstatic.com; " ∷ "img-src 'self' data: fastapi.tiangolo.com; "
      ∷ "connect-src 'self'; " ∷ "frame-ancestors 'none'; " ∷ "base-uri 'self'; "
      ∷ "form-action 'self';" ∷ []))

unfoldable pub standard : List (String × Text)
standard =
    ("strict-transport-security", codes "max-age=63072000; includeSubDomains; preload")
    ∷ ("x-frame-options", codes "DENY")
    ∷ ("x-content-type-options", codes "nosniff")
    ∷ ("x-xss-protection", codes "1; mode=block")
    ∷ ("referrer-policy", codes "strict-origin-when-cross-origin")
    ∷ (
      "permissions-policy",
      codes "camera=(), microphone=(), geolocation=(), payment=(), usb=(), interest-cohort=()",
    )
    ∷ ("content-security-policy", content_security_policy)
    ∷ []

unfoldable pub no_store : List (String × Text)
no_store =
    ("cache-control", codes "no-store, no-cache, must-revalidate, max-age=0")
    ∷ ("pragma", codes "no-cache")
    ∷ []

unfoldable pub identity : List (String × Text)
identity =
    ("server", codes "AISS-Gateway")
    ∷ ("cross-origin-resource-policy", codes "same-origin")
    ∷ ("cross-origin-opener-policy", codes "same-origin")
    ∷ []

unfoldable pub is_api : Text → Bool
unfolding codes
is_api path = starts_with path (codes "/v1/")

-- SecurityHeadersMiddleware.dispatch, on the response of the routes; `uuid` is the fresh id.
unfoldable pub secure : (path uuid : Text) (request : Headers) → Response → Response
secure path uuid request r =
    let h = set_all standard r.headers in
    let h' = if is_api path then set_all no_store h else h in
    let h'' = set_all identity h' in
    record r { headers = Dict.insert "x-request-id" (Dict.get_or "x-request-id" uuid request) h'' }
