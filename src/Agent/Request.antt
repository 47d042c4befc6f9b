-- ===== src/Agent/Request.antt =====
-- The request dict that the agent reads from its socket. A missing key is the default that every
-- reader gives it: the empty text, no headers, and `GET` for the method of the anomaly tier.
use aiss_waf_server.Prelude.{String, Option}
use aiss_waf_server.Prelude.Text.{Text}
use aiss_waf_server.Prelude.Dict.{Dict}

pub data Body : Type 0 where
  bytes : Text → Body
  str : Text → Body

pub record Request : Type 0 where
  pub request_id : Text
  pub client_ip : Text
  pub method : Option Text
  pub uri : Text
  pub query_string : Text
  pub headers : Dict String Text
  pub content_type : Text
  pub body : Body
