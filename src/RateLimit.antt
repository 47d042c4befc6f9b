-- ===== src/RateLimit.antt =====
-- server/app/middleware/rate_limit.py: the sliding-window limiter and the tiered middleware.
-- Times are ticks of the monotonic clock, which are not negative, so `now - window` may stop at 0.
pub mod History
pub mod Queue
pub mod Refines
pub mod Window
pub mod Dispatch
mod Tests
use aiss_waf_server.Prelude.{
  ℕ, ◌+◌, ◌-◌, String, Bool, true, false, ◌||◌, Option, none, some, List, [], ◌∷◌, ◌++◌, length,
  ltb, leb, if◌then◌else◌,
}
use aiss_waf_server.Prelude.Text.{Text, codes, starts_with, before, strip, or_else}
use aiss_waf_server.Prelude.Dict
use aiss_waf_server.Prelude.Dict.{Dict, text_keys, string_eq}

pub record Limiter : Type 0 where
  pub limit : ℕ
  pub window : ℕ
  pub store : Dict Text (List ℕ)

abbrev pub new_limiter : ℕ → ℕ → Limiter
new_limiter limit window = record { limit = limit; window = window; store = [] }

-- while dq and dq[0] < cutoff: dq.popleft()
pub evict : ℕ → List ℕ → List ℕ
evict cutoff [] = []
evict cutoff (t ∷ dq) = if ltb t cutoff then evict cutoff dq else t ∷ dq

-- The clock is read by the caller; the result is (allowed, remaining) and the limiter after.
pub is_allowed : Limiter → Text → ℕ → (Bool × ℕ) × Limiter
is_allowed l key now =
    let cutoff = now - l.window in
    let dq = evict cutoff (Dict.get_or key [] l.store) in
    if leb l.limit (length dq)
    then ((false, 0), record l { store = Dict.insert key dq l.store })
    else (
      (true, l.limit - length (dq ++ (now ∷ []))),
      record l { store = Dict.insert key (dq ++ (now ∷ [])) l.store },
    )

pub record Request : Type 0 where
  pub headers : Dict String Text
  pub client_host : Option Text
  pub path : Text

pub data LimitType : Type 0 where
  auth telemetry global : LimitType

pub record RateLimits : Type 0 where
  pub global_limiter : Limiter
  pub auth_limiter : Limiter
  pub telemetry_limiter : Limiter

-- RateLimitMiddleware.__init__; `minute` is the default window, 60 seconds in ticks.
pub new_rate_limits : ℕ → ℕ → RateLimits
new_rate_limits minute requests_per_minute = record {
  global_limiter = new_limiter requests_per_minute minute;
  auth_limiter = new_limiter 10 minute;
  telemetry_limiter = new_limiter 1200 minute;
}

-- `none` is the AttributeError of `request.client.host` where there is no client.
pub client_ip : Request → Option Text
client_ip r =
    elim (or_else (Dict.get_or "x-real-ip" [] r.headers)
      (strip (before b',' (Dict.get_or "x-forwarded-for" [] r.headers)))) [
        | [] ↦ elim r.client_host [
          | none ↦ none
          | some host ↦ some (or_else host (codes "unknown"))
        ]
        | c ∷ ip ↦ some (c ∷ ip)
      ]

pub limit_type : Text → LimitType
limit_type path =
    if starts_with path (codes "/v1/auth") || starts_with path (codes "/v1/agents/register")
    then auth
    else if starts_with path (codes "/v1/telemetry")
    then telemetry
    else global

pub limiter_of : RateLimits → LimitType → Limiter
limiter_of m auth = m.auth_limiter
limiter_of m telemetry = m.telemetry_limiter
limiter_of m global = m.global_limiter

pub with_limiter : RateLimits → LimitType → Limiter → RateLimits
with_limiter m auth l = record m { auth_limiter = l }
with_limiter m telemetry l = record m { telemetry_limiter = l }
with_limiter m global l = record m { global_limiter = l }

-- What the client receives. `too_many` is the 429 response with its type and headers.
pub data Response {ℓ} (R : Type ℓ) : Type ℓ where
  server_error : Response R
  too_many : LimitType → (limit_header reset_header : ℕ) → Response R
  passed : R → (limit_header remaining_header : ℕ) → Response R

-- `call_next` is the rest of the application: a step on its state `D`.
module _ {R D : Type 0} (call_next : Request → D → R × D) where
  unfoldable pub finish :
      RateLimits → LimitType → Request → D → ℕ → (Bool × ℕ) × Limiter → Response R × RateLimits × D
  finish m type r d wall ((true, remaining), l) =
      let (response, d') = call_next r d in
      (passed response l.limit remaining, with_limiter m type l, d')
  finish m type r d wall ((false, _), l) =
      (too_many type l.limit (wall + 60), with_limiter m type l, d)

  -- `now` is time.monotonic() in ticks, `wall` is int(time.time()) in seconds.
  pub dispatch : RateLimits → Request → D → (now wall : ℕ) → Response R × RateLimits × D
  dispatch m r d now wall = elim (client_ip r) [
    | none ↦ (server_error, m, d)
    | some ip ↦
        let type = limit_type r.path in
        finish m type r d wall (is_allowed (limiter_of m type) ip now)
  ]
