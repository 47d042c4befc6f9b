-- ===== src/Proxy/Forwarded.antt =====
-- When waf-proxy/main.py asks the backend, and with what.
use aiss_waf_server.Prelude.{
  ◌≡◌, refl, sym, ap, ◌∙◌, ◌↔◌, Bool, true, false, not, Option, none, some, is_some, arith,
  Bool-cases, inl, inr,
}
use aiss_waf_server.Prelude.Text.{Text}
use aiss_waf_server.Prelude.Dict
use aiss_waf_server.Prelude.Dict.{text_keys}
use aiss_waf_server.Proxy.Defs.{
  Settings, Request, Question, Loaded, Connection, failed, Outgoing, Backend, question,
}
use aiss_waf_server.Proxy.Handle.{
  Decision, is_block, outgoing_of, decided, read_verdict, consult, handle, fail_open,
}
use aiss_waf_server.Proxy.Headers.{or_later, client_header, own_header, lookup-proxy_headers}

true-not_false : true ≡ false → ⊥
true-not_false q = ground (arith, q)

module _ {F : Type 0} (s : Settings) (backend : Outgoing → Backend) (uuid : Text)
    (r : Request) where
  -- A readable verdict that is no block.
  abbrev pub LetsPass : Option (Decision F) → Type 0
  LetsPass o = (d : Decision F) × (o ≡ some d) × (is_block d.action ≡ false)

  passing :
      (d : Decision F) (b : Bool)
      → is_block d.action ≡ b
      → is_some (decided s backend uuid r (some d)).outgoing ≡ not b
  unfolding decided
  passing d true e = rw e refl
  passing d false e = rw e refl

  passes :
      (o : Option (Decision F)) → is_some (decided s backend uuid r o).outgoing ≡ true → LetsPass o
  unfolding decided
  passes none h = ground (arith, h)
  passes (some d) h = elim (Bool-cases (is_block d.action)) [
    | inl e ↦ absurd (true-not_false (sym h ∙ passing d true e))
    | inr e ↦ (d, refl, e)
  ]

  decided-outgoing :
      (o : Option (Decision F))
      → (is_some (decided s backend uuid r o).outgoing ≡ true) ↔ LetsPass o
  decided-outgoing o = (
    passes o,
    λ p. ap (λ q. is_some (decided s backend uuid r q).outgoing) p.1 ∙ passing p.0 false p.2,
  )

  fail_open-LetsPass :
      (zero_float : F) (loads : Text → Loaded F) (exc : Text)
      → LetsPass (read_verdict zero_float (consult zero_float loads (failed exc)))
  unfolding read_verdict consult fail_open is_block
  fail_open-LetsPass zero_float loads exc = (_, refl, refl)

  -- The backend is asked exactly if the verdict can be read and its action is not BLOCK, and so where
  -- the agent's socket fails; by exact name, the headers it is sent are the proxy's own ones, or else
  -- the last one that the client sent unless it concerns one hop.
  pub handle-outgoing :
      (zero_float : F) (b64encode : Text → Text) (loads : Text → Loaded F)
      (agent : Question → Connection) (name exc : Text)
      → ((is_some (handle zero_float b64encode loads agent s backend uuid r).outgoing ≡ true)
          ↔ LetsPass (
              read_verdict zero_float
                (consult zero_float loads (agent (question b64encode uuid r)))))
        × (is_some (handle zero_float b64encode loads (λ q. failed exc) s backend uuid r).outgoing
            ≡ true)
        × (Dict.lookup name (outgoing_of s r).headers
            ≡ or_later (client_header r name) (own_header s r name))
  unfolding handle outgoing_of
  handle-outgoing zero_float b64encode loads agent name exc = (
    decided-outgoing _,
    (decided-outgoing _).1 (fail_open-LetsPass zero_float loads exc),
    lookup-proxy_headers s r name,
  )
