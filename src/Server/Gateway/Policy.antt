-- ===== src/Server/Gateway/Policy.antt =====
-- The security headers read back from the response that they are put on.
use Prim.Native.String.{String}
use aiss_waf_server.Prelude.{
  ◌≡◌, refl, ◌∙◌, Bool, true, false, ◌&&◌, not, Option, some, List, [], ◌∷◌, ◌++◌, All, All-append,
  arith, if◌then◌else◌, str_eq, eq_iff,
}
use aiss_waf_server.Prelude.Text.{Text}
use aiss_waf_server.Prelude.Dict
use aiss_waf_server.Prelude.Dict.{string_eq}
use aiss_waf_server.Server.Gateway.Headers.{
  Headers, Response, set_all, standard, no_store, identity, is_api, secure,
}

-- What a header of the list reads as.
abbrev pub Reads : (String × Text → Option Text) → Headers → List (String × Text) → Type 0
Reads f h pairs = All (λ pair. Dict.lookup pair.0 h ≡ f pair) pairs

abbrev pub avoids : String → List (String × Text) → Bool
avoids k [] = true
avoids k ((j, v) ∷ pairs) = not (str_eq j k) && avoids k pairs

-- No name of the first list stands in the second.
abbrev pub are_apart : List (String × Text) → List (String × Text) → Bool
are_apart [] later = true
are_apart ((k, v) ∷ pairs) later = avoids k later && are_apart pairs later

abbrev pub are_distinct : List (String × Text) → Bool
are_distinct [] = true
are_distinct ((k, v) ∷ pairs) = avoids k pairs && are_distinct pairs

&&-left : (a b : Bool) → (a && b) ≡ true → a ≡ true
&&-left a b h = ground arith

pub not-left : (a b : Bool) → (not a && b) ≡ true → a ≡ false
not-left a b h = ground arith

pub &&-right : (a b : Bool) → (a && b) ≡ true → b ≡ true
&&-right a b h = ground arith

set_all-avoids :
    (k : String) (pairs : List (String × Text)) (h : Headers)
    → avoids k pairs ≡ true
    → Dict.lookup k (set_all pairs h) ≡ Dict.lookup k h
unfolding set_all
set_all-avoids k [] h a = refl
set_all-avoids k ((j, v) ∷ pairs) h a =
    set_all-avoids k pairs (Dict.insert j v h) (&&-right (not (str_eq j k)) (avoids k pairs) a)
    ∙ (Dict.lookup-insert j k v h ∙ ground (arith, &&-left (not (str_eq j k)) (avoids k pairs) a))

pub set_all-kept :
    (f : String × Text → Option Text) (later pairs : List (String × Text)) (h : Headers)
    → are_apart pairs later ≡ true
    → Reads f h pairs
    → Reads f (set_all later h) pairs
set_all-kept f later [] h a r = tt
set_all-kept f later ((k, v) ∷ pairs) h a (r, rs) = (
  set_all-avoids k later h (&&-left (avoids k later) (are_apart pairs later) a) ∙ r,
  set_all-kept f later pairs h (&&-right (avoids k later) (are_apart pairs later) a) rs,
)

-- What is set is read back.
set_all-found :
    (pairs : List (String × Text)) (h : Headers)
    → are_distinct pairs ≡ true
    → Reads (λ pair. some pair.1) (set_all pairs h) pairs
unfolding set_all
set_all-found [] h a = tt
set_all-found ((k, v) ∷ pairs) h a = (
  set_all-avoids k pairs (Dict.insert k v h) (&&-left (avoids k pairs) (are_distinct pairs) a)
      ∙ (Dict.lookup-insert k k v h ∙ ground (arith, eq_iff k k)),
  set_all-found pairs (Dict.insert k v h) (&&-right (avoids k pairs) (are_distinct pairs) a),
)

abbrev pub policy : List (String × Text)
policy = standard ++ identity

standard-distinct : are_distinct standard ≡ true
unfolding standard
standard-distinct = refl

identity-distinct : are_distinct identity ≡ true
unfolding identity
identity-distinct = refl

standard-no_store : are_apart standard no_store ≡ true
unfolding standard no_store
standard-no_store = refl

standard-identity : are_apart standard identity ≡ true
unfolding standard identity
standard-identity = refl

set_some :
    (b : Bool) (f : String × Text → Option Text) (later pairs : List (String × Text)) (h : Headers)
    → are_apart pairs later ≡ true
    → Reads f h pairs
    → Reads f (if b then set_all later h else h) pairs
set_some true f later pairs h a r = set_all-kept f later pairs h a r
set_some false f later pairs h a r = r

abbrev pub with_id : Text → List (String × Text)
with_id id = ("x-request-id", id) ∷ []

pub policy-id : (id : Text) → are_apart policy (with_id id) ≡ true
unfolding standard identity
policy-id id = refl

abbrev pub set_value : String × Text → Option Text
set_value pair = some pair.1

pub secure-policy :
    (path uuid : Text) (request : Headers) (r : Response)
    → Reads set_value (secure path uuid request r).headers policy
unfolding secure
secure-policy path uuid request r =
    let h = set_all standard r.headers in
    let h' = if is_api path then set_all no_store h else h in
    let first =
      set_some (is_api path) set_value no_store standard h standard-no_store
        (set_all-found standard r.headers standard-distinct) in
    let id = Dict.get_or "x-request-id" uuid request in
    unfold set_all in
    set_all-kept set_value (with_id id) policy (set_all identity h') (policy-id id) (
      All-append (λ pair. Dict.lookup pair.0 (set_all identity h') ≡ set_value pair) standard
        identity (set_all-kept set_value identity standard h' standard-identity first)
        (set_all-found identity h' identity-distinct))
