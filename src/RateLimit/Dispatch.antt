-- ===== src/RateLimit/Dispatch.antt =====
-- What reaches the application through the middleware, and how often.
use aiss_waf_server.Prelude.{
  ℕ, ◌+◌, ◌≤◌, ◌≡◌, refl, sym, ap, ◌∙◌, Bool, true, false, none, some, List, [], ◌∷◌, arith,
  Bool-cases, inl, inr, if◌then◌else◌, Option-cases,
}
use aiss_waf_server.Prelude.Text.{Text}
use aiss_waf_server.RateLimit.{
  Limiter, new_limiter, is_allowed, Request, LimitType, auth, telemetry, global, RateLimits,
  new_rate_limits, client_ip, limit_type, limiter_of, with_limiter, Response, server_error,
  too_many, passed, finish, dispatch,
}
use aiss_waf_server.RateLimit.History.{History, count_within, remember}
use aiss_waf_server.RateLimit.Refines.{AreLater}
use aiss_waf_server.RateLimit.Window.{admitted, admitted_bound}

pub record Arrival : Type 0 where
  pub request : Request
  pub now : ℕ
  pub wall : ℕ

unfoldable pub same_type : LimitType → LimitType → Bool
same_type auth auth = true
same_type telemetry telemetry = true
same_type global global = true
same_type _ _ = false

same_type-eq : (a b : LimitType) → same_type a b ≡ true → a ≡ b
unfolding same_type
same_type-eq auth b h = ground arith
same_type-eq telemetry b h = ground arith
same_type-eq global b h = ground arith

same_type_self : (a : LimitType) → same_type a a ≡ true
unfolding same_type
same_type_self auth = refl
same_type_self telemetry = refl
same_type_self global = refl

-- The calls that the requests of one tier make of its limiter.
unfoldable pub calls_of : LimitType → List Arrival → List (Text × ℕ)
calls_of type [] = []
calls_of type (a ∷ as') =
    let rest = calls_of type as' in
    if same_type (limit_type a.request.path) type
    then (elim (client_ip a.request) [ none ↦ rest | some ip ↦ (ip, a.now) ∷ rest ])
    else rest

limiter_of-with_limiter_self :
    (m : RateLimits) (type : LimitType) (l : Limiter) → limiter_of (with_limiter m type l) type ≡ l
unfolding limiter_of with_limiter
limiter_of-with_limiter_self m auth l = refl
limiter_of-with_limiter_self m telemetry l = refl
limiter_of-with_limiter_self m global l = refl

-- A request of one tier leaves the limiters of the others as they are.
limiter_of-with_limiter_other :
    (m : RateLimits) (used type : LimitType) (l : Limiter)
    → same_type used type ≡ false
    → limiter_of (with_limiter m used l) type ≡ limiter_of m type
unfolding limiter_of with_limiter same_type
limiter_of-with_limiter_other m auth type l h = ground arith
limiter_of-with_limiter_other m telemetry type l h = ground arith
limiter_of-with_limiter_other m global type l h = ground arith

if_same {ℓ} : {A : Type ℓ} (b : Bool) (x : A) → (if b then x else x) ≡ x
if_same true x = refl
if_same false x = refl

limiter_of-with_limiter :
    (m : RateLimits) (used type : LimitType) (l : Limiter)
    → limiter_of (with_limiter m used l) type
      ≡ (if same_type used type then l else limiter_of m type)
limiter_of-with_limiter m used type l = elim (Bool-cases (same_type used type)) [
  | inl same ↦ rw same (rw (same_type-eq used type same) (limiter_of-with_limiter_self m type l))
  | inr other ↦ rw other (limiter_of-with_limiter_other m used type l other)
]

module _ {R D : Type 0} (call_next : Request → D → R × D) where
  -- The requests of one tier that reached the application, the newest first.
  unfoldable pub note : LimitType → Arrival → Response R → History → History
  note type a (passed _ _ _) h =
      if same_type (limit_type a.request.path) type
      then (elim (client_ip a.request) [ none ↦ h | some ip ↦ (ip, a.now) ∷ h ])
      else h
  note type a _ h = h

  unfoldable pub reached : LimitType → RateLimits → D → History → List Arrival → History
  reached type m d h [] = h
  reached type m d h (a ∷ as') =
      let (response, m', d') = dispatch call_next m a.request d a.now a.wall in
      reached type m' d' (note type a response h) as'

  -- One admission or refusal, as a tier sees it.
  finish_effect :
      (type : LimitType) (m : RateLimits) (d : D) (h : History) (a : Arrival) (ip : Text)
      (res : (Bool × ℕ) × Limiter)
      → client_ip a.request ≡ some ip
      → let used = limit_type a.request.path in
        let out = finish call_next m used a.request d a.wall res in
        (note type a out.0 h ≡ (if same_type used type then remember res.0.0 ip a.now h else h))
        × (limiter_of out.1 type ≡ (if same_type used type then res.1 else limiter_of m type))
  unfolding note finish
  finish_effect type m d h a ip ((true, remaining), l) e =
      (rw e refl, limiter_of-with_limiter m (limit_type a.request.path) type l)
  finish_effect type m d h a ip ((false, remaining), l) e =
      (ground arith, limiter_of-with_limiter m (limit_type a.request.path) type l)

  -- One request, on each of its branches.
  reached-cons :
      (type : LimitType) (m : RateLimits) (d : D) (h : History) (a : Arrival) (as' : List Arrival)
      → ((m' : RateLimits) (d' : D) (h' : History)
          → reached type m' d' h' as' ≡ admitted (limiter_of m' type) h' (calls_of type as'))
      → reached type m d h (a ∷ as') ≡ admitted (limiter_of m type) h (calls_of type (a ∷ as'))
  unfolding reached calls_of dispatch admitted note
  reached-cons type m d h a as' ih = elim (Option-cases (client_ip a.request)) [
    | inl e ↦
        rw (e, dispatch)
          (ih m d h
            ∙ ap (admitted (limiter_of m type) h)
                (sym (if_same (same_type (limit_type a.request.path) type) (calls_of type as'))))
    | inr (ip, e) ↦
        let used = limit_type a.request.path in
        let out =
          finish call_next m used a.request d a.wall (is_allowed (limiter_of m used) ip a.now) in
        let effect = finish_effect type m d h a ip (is_allowed (limiter_of m used) ip a.now) e in
        rw (e, dispatch)
          (ih out.1 out.2 (note type a out.0 h)
            ∙ rw effect.0 (
                rw effect.1 (elim (Bool-cases (same_type used type)) [
                  | inl same ↦ rw same (rw (same_type-eq (limit_type a.request.path) type same))
                  | inr other ↦ rw other
                ])))
  ]

  reached-eq-admitted :
      (type : LimitType) (as' : List Arrival) (m : RateLimits) (d : D) (h : History)
      → reached type m d h as' ≡ admitted (limiter_of m type) h (calls_of type as')
  unfolding reached calls_of admitted
  reached-eq-admitted type [] m d h = refl
  reached-eq-admitted type (a ∷ as') m d h =
      reached-cons type m d h a as' (reached-eq-admitted type as')

module _ {R D : Type 0} (call_next : Request → D → R × D) where
  pub dispatch-none :
      (m : RateLimits) (r : Request) (d : D) (now wall : ℕ)
      → client_ip r ≡ none
      → dispatch call_next m r d now wall ≡ (server_error, m, d)
  unfolding dispatch
  dispatch-none m r d now wall e = rw (e, dispatch)

  pub dispatch-some :
      (m : RateLimits) (r : Request) (d : D) (now wall : ℕ) (ip : Text)
      → client_ip r ≡ some ip
      → dispatch call_next m r d now wall
        ≡ finish call_next m
            (limit_type r.path)
            r
            d
            wall
            (is_allowed (limiter_of m (limit_type r.path)) ip now)
  unfolding dispatch
  dispatch-some m r d now wall ip e = rw (e, dispatch)

abbrev pub AreLaterArrivals : ℕ → List Arrival → Type 0
AreLaterArrivals last [] = Unit
AreLaterArrivals last (a ∷ as') = (last ≤ a.now) × AreLaterArrivals a.now as'

AreLater-weaken : (a b : ℕ) (calls : List (Text × ℕ)) → a ≤ b → AreLater b calls → AreLater a calls
AreLater-weaken a b [] le p = p
AreLater-weaken a b ((k, t) ∷ calls) le (p, q) = (omega arith, q)

AreLater-calls_of :
    (type : LimitType) (last : ℕ) (as' : List Arrival)
    → AreLaterArrivals last as'
    → AreLater last (calls_of type as')
unfolding calls_of
AreLater-calls_of type last [] p = p
AreLater-calls_of type last (a ∷ as') (le, p) =
    let rest = AreLater-calls_of type a.now as' p in
    let later = AreLater-weaken last a.now (calls_of type as') le rest in
    elim (Bool-cases (same_type (limit_type a.request.path) type)) [
      | inl same ↦ rw same (elim (Option-cases (client_ip a.request)) [
        | inl e ↦ rw e later
        | inr (ip, e) ↦ rw e (le, rest)
      ])
      | inr other ↦ rw other later
    ]

abbrev pub tier_limit : ℕ → LimitType → ℕ
tier_limit requests_per_minute auth = 10
tier_limit requests_per_minute telemetry = 1200
tier_limit requests_per_minute global = requests_per_minute

limiter_of-new_rate_limits :
    (minute requests_per_minute : ℕ) (type : LimitType)
    → limiter_of (new_rate_limits minute requests_per_minute) type
      ≡ new_limiter (tier_limit requests_per_minute type) minute
unfolding limiter_of new_rate_limits
limiter_of-new_rate_limits minute requests_per_minute auth = refl
limiter_of-new_rate_limits minute requests_per_minute telemetry = refl
limiter_of-new_rate_limits minute requests_per_minute global = refl

module _ {R D : Type 0} (call_next : Request → D → R × D) where
  -- From a fresh start and a clock that does not go back, whatever the requests and whatever the
  -- application does, every interval as long as the window holds at most 10 requests of one
  -- address under the auth paths that reach the application, 1200 under the telemetry path, and
  -- `requests_per_minute` under the others.
  pub reached_bound :
      (minute requests_per_minute : ℕ) (type : LimitType) (as' : List Arrival) (d : D) (ip : Text)
      (from : ℕ)
      → AreLaterArrivals 0 as'
      → count_within ip from
          (from + minute)
          (reached call_next type (new_rate_limits minute requests_per_minute) d [] as')
        ≤ tier_limit requests_per_minute type
  reached_bound minute requests_per_minute type as' d ip from later =
      rw
        (
          reached-eq-admitted call_next type as' (new_rate_limits minute requests_per_minute) d [],
          limiter_of-new_rate_limits minute requests_per_minute type,
        )
        (admitted_bound (tier_limit requests_per_minute type) minute (calls_of type as') ip from
          (AreLater-calls_of type 0 as' later))

  -- A 429 response is given only where the limiter of the path's tier refuses the address; it
  -- names that tier and its limit, and the application has not run.
  dispatch_refused :
      (m : RateLimits) (r : Request) (d : D) (now wall : ℕ) (type : LimitType) (limit reset : ℕ)
      → (dispatch call_next m r d now wall).0 ≡ too_many type limit reset
      → ((dispatch call_next m r d now wall).2 ≡ d)
        × (type ≡ limit_type r.path)
        × (reset ≡ wall + 60)
        × ((ip : Text) × (client_ip r ≡ some ip)
            × ((is_allowed (limiter_of m (limit_type r.path)) ip now).0.0 ≡ false))
  unfolding dispatch finish
  dispatch_refused m r d now wall type limit reset h = elim (Option-cases (client_ip r)) [
    | inl e ↦ absurd (ground (arith, e))
    | inr (ip, e) ↦ (ground arith, ground arith, ground arith, (ip, e, ground arith))
  ]
