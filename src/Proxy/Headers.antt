-- ===== src/Proxy/Headers.antt =====
-- The headers that waf-proxy/main.py sends to the backend.
use aiss_waf_server.Prelude.{
  ◌≡◌, refl, sym, ap, ◌&&◌, ◌||◌, ◌∙◌, Bool, true, false, not, Option, none, some, List, [], ◌∷◌,
  is_empty, arith, if◌then◌else◌, Bool-cases, inl, inr,
}
use aiss_waf_server.Prelude.Text.{Text, codes, text_eq, text_eq_iff, elem, lower}
use aiss_waf_server.Prelude.Dict
use aiss_waf_server.Prelude.Dict.{Dict, lookup-insert}
use aiss_waf_server.Prelude.Dict.{text_keys}
use aiss_waf_server.Proxy.Defs.{
  Settings, Request, client_ip, kept_onto, hop_by_hop, with_host, proxy_headers,
}

abbrev pub or_later : Option Text → Option Text → Option Text
or_later old none = old
or_later old (some w) = some w

-- The value of the last header that is spelled like `name`.
unfoldable pub last_value : Text → List (Text × Text) → Option Text
last_value name [] = none
last_value name ((k, v) ∷ headers) =
    or_later (if text_eq k name then some v else none) (last_value name headers)

or_later-if :
    (b : Bool) (later : Option Text) (v : Text) (old : Option Text)
    → or_later (if b then some v else old) later
      ≡ or_later old (or_later (if b then some v else none) later)
or_later-if true none v old = refl
or_later-if false none v old = refl
or_later-if true (some w) v old = refl
or_later-if false (some w) v old = refl

-- Names that a test tells apart are different.
apart : (p : Text → Bool) (k name : Text) → ¬ (p k ≡ p name) → text_eq k name ≡ false
apart p k name h = elim (Bool-cases (text_eq k name)) [
  | inl e ↦ absurd (h (ap p ((text_eq_iff k name).0 e)))
  | inr e ↦ e
]

true-false : {a b : Bool} → a ≡ true → b ≡ false → ¬ (a ≡ b)
true-false h k e = ground arith

module _ (skipped : List Text) (name : Text) where
  lookup-skipped :
      (d : Dict Text Text) (headers : List (Text × Text))
      → elem (lower name) skipped ≡ true
      → Dict.lookup name (kept_onto skipped d headers) ≡ Dict.lookup name d
  unfolding kept_onto
  lookup-skipped d [] h = refl
  lookup-skipped d ((k, v) ∷ headers) h = elim (Bool-cases (elem (lower k) skipped)) [
    | inl e ↦ rw e (lookup-skipped d headers h)
    | inr e ↦ rw e (
        lookup-skipped (Dict.insert k v d) headers h
        ∙ (lookup-insert k name v d
            ∙ (rw (apart (λ t. elem (lower t) skipped) k name (λ q. true-false h e (sym q))) refl)))
  ]

  lookup-kept :
      (d : Dict Text Text) (headers : List (Text × Text))
      → elem (lower name) skipped ≡ false
      → Dict.lookup name (kept_onto skipped d headers)
        ≡ or_later (Dict.lookup name d) (last_value name headers)
  unfolding kept_onto last_value
  lookup-kept d [] h = refl
  lookup-kept d ((k, v) ∷ headers) h = elim (Bool-cases (elem (lower k) skipped)) [
    | inl e ↦
        rw (e, apart (λ t. elem (lower t) skipped) k name (true-false e h))
          (lookup-kept d headers h
            ∙ or_later-if false (last_value name headers) v (Dict.lookup name d))
    | inr e ↦ rw e (
        lookup-kept (Dict.insert k v d) headers h
        ∙ (ap (λ o. or_later o (last_value name headers)) (lookup-insert k name v d)
            ∙ or_later-if (text_eq k name) (last_value name headers) v (Dict.lookup name d)))
  ]

-- What the proxy sets itself, by the exact name.
unfoldable pub own_header : Settings → Request → Text → Option Text
unfolding codes client_ip
own_header s r name =
    if text_eq (codes "X-WAF-Verdict") name
    then some (codes "PERMIT")
    else if text_eq (codes "X-Forwarded-Proto") name
    then some (if text_eq s.backend_scheme (codes "https") then codes "https" else codes "http")
    else if text_eq (codes "X-Forwarded-For") name || text_eq (codes "X-Real-IP") name
    then some (client_ip r)
    else if text_eq (codes "Host") name && not (is_empty s.backend_host)
    then some s.backend_host
    else none

-- What is left of the client's header of that name.
unfoldable pub client_header : Request → Text → Option Text
client_header r name = if elem (lower name) hop_by_hop then none else last_value name r.headers

or_later-none : (o : Option Text) → or_later none o ≡ o
or_later-none none = refl
or_later-none (some w) = refl

lookup-client :
    (r : Request) (name : Text)
    → Dict.lookup name (kept_onto hop_by_hop [] r.headers) ≡ client_header r name
unfolding client_header Dict.lookup
lookup-client r name = elim (Bool-cases (elem (lower name) hop_by_hop)) [
  | inl e ↦ rw e (lookup-skipped hop_by_hop name [] r.headers e)
  | inr e ↦
      rw e (lookup-kept hop_by_hop name [] r.headers e ∙ or_later-none (last_value name r.headers))
]

lookup-with_host :
    (host name : Text) (d : Dict Text Text)
    → Dict.lookup name (with_host host d) ≡ (
        if text_eq (codes "Host") name && not (is_empty host)
        then some host
        else Dict.lookup name d)
unfolding with_host
lookup-with_host [] name d = ground arith
lookup-with_host (c ∷ host) name d = lookup-insert (codes "Host") name (c ∷ host) d ∙ ground arith

over :
    (name k v : Text) (d : Dict Text Text) (o : Option Text)
    → Dict.lookup name d ≡ o
    → Dict.lookup name (Dict.insert k v d) ≡ (if text_eq k name then some v else o)
over name k v d o h = lookup-insert k name v d ∙ ap (λ q. if text_eq k name then some v else q) h

layers :
    (verdict proto forwarded real host : Bool) (permit scheme ip server : Text)
    (client : Option Text)
    → (if verdict
        then some permit
        else if proto
        then some scheme
        else if forwarded
        then some ip
        else if real
        then some ip
        else if host
        then some server
        else client)
      ≡ or_later client (
          if verdict
          then some permit
          else if proto
          then some scheme
          else if forwarded || real
          then some ip
          else if host
          then some server
          else none)
layers true proto forwarded real host permit scheme ip server client = refl
layers false true forwarded real host permit scheme ip server client = refl
layers false false true real host permit scheme ip server client = refl
layers false false false true host permit scheme ip server client = refl
layers false false false false true permit scheme ip server client = refl
layers false false false false false permit scheme ip server client = refl

-- The headers of the request to the backend, by exact name: the proxy's own, or what the client sent.
pub lookup-proxy_headers :
    (s : Settings) (r : Request) (name : Text)
    → Dict.lookup name (proxy_headers s r) ≡ or_later (client_header r name) (own_header s r name)
unfolding proxy_headers own_header
lookup-proxy_headers s r name =
    let sent =
      ap
        (λ o.
          if text_eq (codes "Host") name && not (is_empty s.backend_host)
          then some s.backend_host
          else o)
        (lookup-client r name) in
    over name _ _ _ _ (
      over name _ _ _ _ (
        over name _ _ _ _ (
          over name _ _ _ _
            (lookup-with_host s.backend_host name (kept_onto hop_by_hop [] r.headers) ∙ sent))))
    ∙ layers (text_eq (codes "X-WAF-Verdict") name) (text_eq (codes "X-Forwarded-Proto") name)
        (text_eq (codes "X-Forwarded-For") name) (text_eq (codes "X-Real-IP") name)
        (text_eq (codes "Host") name && not (is_empty s.backend_host)) (codes "PERMIT")
        (if text_eq s.backend_scheme (codes "https") then codes "https" else codes "http")
        (client_ip r) s.backend_host (client_header r name)
