-- ===== src/Proxy/Defs.antt =====
-- The definitions of waf-proxy/main.py: the question to the agent, the decision, and the request to
-- the backend. Telemetry and heartbeats are sent and their answers ignored.
use aiss_waf_server.Prelude.{
  ℕ, Option, none, some, List, [], ◌∷◌, ◌++◌, length, take, map, ◌==◌, is_empty, if◌then◌else◌,
}
use mathlib.Core.List.{reverse}
use aiss_waf_server.Prelude.Text.{Text, codes, text_eq, elem, lower, contains, or_else}
use aiss_waf_server.Prelude.Dict
use aiss_waf_server.Prelude.Dict.{Dict}
use aiss_waf_server.Prelude.Dict.{text_keys}

-- BACKEND_URL and the parts of it that urlparse gives.
pub record Settings : Type 0 where
  pub backend_url : Text
  pub backend_host : Text
  pub backend_scheme : Text

-- A request as aiohttp gives it: the headers as sent, in order.
pub record Request : Type 0 where
  pub method : Text
  pub path : Text
  pub query_string : Text
  pub rel_url : Text
  pub remote : Option Text
  pub content_type : Option Text
  pub headers : List (Text × Text)
  pub body : Text

-- The message to the agent, `req_data`.
pub record Question : Type 0 where
  pub request_id : Text
  pub client_ip : Text
  pub method : Text
  pub uri : Text
  pub query_string : Text
  pub content_type : Text
  pub content_length : ℕ
  pub headers : Dict Text Text
  pub body : Text
  pub user_agent : Text
  pub server_type : Text

-- A key of the parsed verdict.
pub data Field (A : Type 0) : Type 0 where
  missing : Field A
  null : Field A
  value : A → Field A

-- The verdict; `F` is the type of its floats.
pub record Verdict (F : Type 0) : Type 0 where
  pub action : Field Text
  pub reason : Field Text
  pub tier : Field ℕ
  pub cve_id : Field Text
  pub rule_name : Field Text
  pub ml_score : Field F
  pub latency_ms : Field F

-- json.loads: an exception with its text, a value that is no dict, or a verdict.
pub data Loaded (F : Type 0) : Type 0 where
  refused : Text → Loaded F
  not_dict : Loaded F
  loaded : Verdict F → Loaded F

-- What one `recv` gives; the connection is closed where no more is given.
pub data Recv : Type 0 where
  chunk : Text → Recv
  raises : Text → Recv

-- The socket: the exception of connecting or sending, or what is received.
pub data Connection : Type 0 where
  failed : Text → Connection
  connected : List Recv → Connection

-- s.headers.get(name), whose names have no case
unfoldable pub header : Text → List (Text × Text) → Option Text
header name [] = none
header name ((k, v) ∷ headers) =
    if text_eq (lower k) (lower name) then some v else header name headers

abbrev pub get_or {ℓ} : {A : Type ℓ} → A → Option A → A
get_or d none = d
get_or d (some a) = a

-- {k.lower(): v for k, v in items} and {k: v for k, v in items}, onto a dict
unfoldable pub lowered_onto : Dict Text Text → List (Text × Text) → Dict Text Text
lowered_onto d [] = d
lowered_onto d ((k, v) ∷ headers) = lowered_onto (Dict.insert (lower k) v d) headers

unfoldable pub kept_onto : List Text → Dict Text Text → List (Text × Text) → Dict Text Text
unfolding elem
kept_onto skipped d [] = d
kept_onto skipped d ((k, v) ∷ headers) =
    kept_onto skipped (if elem (lower k) skipped then d else Dict.insert k v d) headers

unfoldable pub client_ip : Request → Text
unfolding header codes
client_ip r =
    get_or (or_else (get_or [] r.remote) (codes "0.0.0.0")) (header (codes "X-Real-IP") r.headers)

unfoldable pub question : (b64encode : Text → Text) (uuid : Text) → Request → Question
unfolding client_ip header lowered_onto codes
question b64encode uuid r = record {
  request_id = uuid;
  client_ip = client_ip r;
  method = r.method;
  uri = r.path;
  query_string = r.query_string;
  content_type = get_or [] r.content_type;
  content_length = length r.body;
  headers = lowered_onto [] r.headers;
  body = if is_empty r.body then [] else b64encode (take 4096 r.body);
  user_agent = get_or [] (header (codes "User-Agent") r.headers);
  server_type = codes "nginx";
}

-- The loop of `_consult_aiss`: what is received up to a chunk with a line end, or the exception.
unfoldable pub receive : Text → List Recv → Text × Option Text
unfolding contains
receive buf [] = (buf, none)
receive buf (raises exc ∷ more) = (buf, some exc)
receive buf (chunk [] ∷ more) = (buf, none)
receive buf (chunk (c ∷ data_read) ∷ more) =
    let rest = receive (buf ++ (c ∷ data_read)) more in
    if contains (buf ++ (c ∷ data_read)) (10 ∷ []) then (buf ++ (c ∷ data_read), none) else rest

unfoldable pub hop_by_hop : List Text
unfolding codes
hop_by_hop = map codes (
    "host" ∷ "transfer-encoding" ∷ "connection" ∷ "keep-alive" ∷ "proxy-authenticate"
    ∷ "proxy-authorization" ∷ "te" ∷ "trailers" ∷ "upgrade" ∷ [])

unfoldable pub response_skipped : List Text
unfolding codes
response_skipped =
    map codes
      ("transfer-encoding" ∷ "content-encoding" ∷ "connection" ∷ "strict-transport-security" ∷ [])

unfoldable pub with_host : Text → Dict Text Text → Dict Text Text
unfolding codes
with_host [] d = d
with_host (c ∷ host) d = Dict.insert (codes "Host") (c ∷ host) d

unfoldable pub proxy_headers : Settings → Request → Dict Text Text
unfolding with_host kept_onto hop_by_hop client_ip codes
proxy_headers s r =
    let d = with_host s.backend_host (kept_onto hop_by_hop [] r.headers) in
    let d1 = Dict.insert (codes "X-Real-IP") (client_ip r) d in
    let d2 = Dict.insert (codes "X-Forwarded-For") (client_ip r) d1 in
    let proto = if text_eq s.backend_scheme (codes "https") then codes "https" else codes "http" in
    let d3 = Dict.insert (codes "X-Forwarded-Proto") proto d2 in
    Dict.insert (codes "X-WAF-Verdict") (codes "PERMIT") d3

-- s.rstrip("/")
drop_slashes : Text → Text
drop_slashes [] = []
drop_slashes (c ∷ s) = if c == b'/' then drop_slashes s else c ∷ s

unfoldable pub target_url : Settings → Request → Text
unfolding drop_slashes
target_url s r = reverse (drop_slashes (reverse s.backend_url)) ++ r.rel_url

-- The request to the backend.
pub record Outgoing : Type 0 where
  pub method : Text
  pub url : Text
  pub headers : Dict Text Text
  pub body : Text

pub data Backend : Type 0 where
  answered : (status : ℕ) (headers : List (Text × Text)) (content : Text) → Backend
  unreachable : Text → Backend
  failing : Text → Backend
