-- ===== src/Server/Inspect/Stored.antt =====
-- The tables that the background tasks write.
use aiss_waf_server.Prelude.{
  ℕ, ◌≡◌, refl, Bool, true, none, some, [], ◌∷◌, is_some, Bool-cases, inl, inr, All,
}
use aiss_waf_server.Prelude.Text.{Text, or_else}
use aiss_waf_server.Prelude.Dict
use aiss_waf_server.Prelude.Dict.{text_keys, lookup-insert}
use aiss_waf_server.Server.Inspect.{InspectRequest, InspectVerdict}
use aiss_waf_server.Server.Inspect.Endpoint.{
  Agent, Tables, Event, ensure_agent_registered, insert_event, persist_inspect_event,
  vercel_agent_id,
}

-- Every event names an agent that has a row.
abbrev pub IsReferential : Tables → Type 0
IsReferential t = All (λ entry. is_some (Dict.lookup entry.1.agent_id t.agents) ≡ true) t.events

insert-All :
    (P : Text × Event → Type 0) (k : Text) (v : Event) (d : Dict.Dict Text Event)
    → ((j : Text) → P (j, v))
    → All P d
    → All P (Dict.insert k v d)
unfolding Dict.insert
insert-All P k v [] h hs = (h k, tt)
insert-All P k v ((j, w) ∷ d) h (p, ps) = elim (Bool-cases (text_keys.beq j k)) [
  | inl e ↦ rw e (h j, ps)
  | inr e ↦ rw e (p, insert-All P k v d h ps)
]

insert-kept :
    (k j : Text) (a : Agent) (d : Dict.Dict Text Agent)
    → is_some (Dict.lookup j d) ≡ true
    → is_some (Dict.lookup j (Dict.insert k a d)) ≡ true
insert-kept k j a d h =
    rw (lookup-insert k j a d)
      (elim (Bool-cases (text_keys.beq k j)) [ inl e ↦ rw e refl | inr e ↦ rw e h ])

insert-found :
    (k : Text) (a : Agent) (d : Dict.Dict Text Agent)
    → is_some (Dict.lookup k (Dict.insert k a d)) ≡ true
insert-found k a d = rw (lookup-insert k k a d, (text_keys.beq_iff k k).1 refl) refl

All-mono :
    (d : Dict.Dict Text Agent) (k : Text) (a : Agent) (es : Dict.Dict Text Event)
    → All (λ entry. is_some (Dict.lookup entry.1.agent_id d) ≡ true) es
    → All (λ entry. is_some (Dict.lookup entry.1.agent_id (Dict.insert k a d)) ≡ true) es
All-mono d k a [] h = tt
All-mono d k a (e ∷ es) (h, hs) = (insert-kept k e.1.agent_id a d h, All-mono d k a es hs)

persist-step :
    (t : Tables) (k id : Text) (a : Agent) (e : Event)
    → e.agent_id ≡ k
    → IsReferential t
    → IsReferential (insert_event id e (record t { agents = Dict.insert k a t.agents }))
persist-step t k id a e same h =
    insert-All (λ entry. is_some (Dict.lookup entry.1.agent_id (Dict.insert k a t.agents)) ≡ true)
      id e t.events (λ j. rw same (insert-found k a t.agents)) (All-mono t.agents k a t.events h)

-- Storing a verdict keeps the events' agents registered, where the registration itself does not
-- raise, whether the id is taken or the commit raises or not.
persist_inspect_event-IsReferential :
    (commits : Bool) (req : InspectRequest) (v : InspectVerdict) (api_actor : Text) (now : ℕ)
    (t : Tables)
    → IsReferential t
    → IsReferential (persist_inspect_event true commits req v api_actor now t)
unfolding persist_inspect_event ensure_agent_registered
persist_inspect_event-IsReferential commits req v api_actor now t h =
    elim (Bool-cases (is_some (Dict.lookup v.request_id t.events))) [
      | inl e ↦ rw e h
      | inr e ↦ rw e (elim (Bool-cases commits) [
        | inl c ↦ rw c (persist-step t _ v.request_id _ _ refl h)
        | inr c ↦ rw c h
      ])
    ]

lookup-insert_event :
    (id : Text) (e : Event) (t : Tables) → Dict.lookup id (insert_event id e t).events ≡ some e
lookup-insert_event id e t =
    rw (lookup-insert id id e t.events, (text_keys.beq_iff id id).1 refl) refl

-- A verdict under a fresh id that is committed is read back from the events as it is, with the
-- request's address, method and path, whether the agent could be registered or not.
persist_inspect_event-stored :
    (reads : Bool) (req : InspectRequest) (v : InspectVerdict) (api_actor : Text) (now : ℕ)
    (t : Tables)
    → Dict.lookup v.request_id t.events ≡ none
    → (e : Event) × (Dict.lookup v.request_id
          (persist_inspect_event reads true req v api_actor now t).events
        ≡ some e)
      × ((e.verdict ≡ v)
          × ((e.client_ip ≡ req.client_ip) × ((e.method ≡ req.method) × (e.uri ≡ req.uri))))
unfolding persist_inspect_event
persist_inspect_event-stored reads req v api_actor now t h = rw h (
  _,
  lookup-insert_event v.request_id _
      (ensure_agent_registered reads t (or_else req.source_app (or_else api_actor vercel_agent_id))
        now).0,
  (refl, (refl, (refl, refl))),
)
