-- ===== src/Http/Passing.antt =====
-- What the middleware of internal/middleware/timeout.go, metrics.go and rate_limit.go
-- leaves of the answer of the rest of the chain.
use go_order_lab.Prelude.{
  ◌≡◌, refl, Bool, some, ℤ, pos, leb_ℤ, Bool-cases, inl, inr, arith, codes, ◌⊎◌,
}
use go_order_lab.Floats.{Floats}
use go_order_lab.Metrics.{Store}
use go_order_lab.Http.{Response, Context, Chain, refuse}
use go_order_lab.Http.RateLimit.{TokenBucketLimiter, allow, rate_limit}
use go_order_lab.Http.Middleware.{request_timeout, metrics}

module _ {A S : Type 0} (next : Chain A S) (c : Context A) (s : S) where
  -- The deadline comes too late for a request that is answered.
  pub request_timeout_answered :
      (timeout : ℤ) (expired : Bool) (r : Response A)
      → (next (c, s)).0.response ≡ some r
      → request_timeout timeout expired next (c, s) ≡ next (c, s)
  unfolding request_timeout
  request_timeout_answered timeout expired r written = elim (Bool-cases (leb_ℤ timeout (pos 0))) [
    | inl off ↦ rw (request_timeout, off) refl
    | inr on ↦ rw (request_timeout, on, written) (ground arith)
  ]

  -- The observation leaves the request as it is.
  pub metrics_lem :
      (R : Floats) (observe : (Store R → Store R) → S → S) (elapsed : ℤ)
      → ((metrics R observe elapsed next (c, s)).0 ≡ (next (c, s)).0)
        × ((f : Store R → Store R) × ((metrics R observe elapsed next (c, s)).1
              ≡ observe f (next (c, s)).1))
  unfolding metrics
  metrics_lem R observe elapsed = (refl, (_, refl))

  -- The limiter answers 429 and runs nothing, or the rest runs; either way it keeps its new state.
  pub rate_limit_cases :
      (R : Floats) (get : S → TokenBucketLimiter R) (put : TokenBucketLimiter R → S → S)
      (blocked : S → S) (now : ℤ)
      → (rate_limit R get put blocked now next (c, s)
          ≡ (refuse 429 (codes "too many requests") c, blocked (put (allow R now (get s)).1 s)))
        ⊎ (rate_limit R get put blocked now next (c, s) ≡ next (c, put (allow R now (get s)).1 s))
  unfolding rate_limit
  rate_limit_cases R get put blocked now = elim (Bool-cases (allow R now (get s)).0) [
    | inl passes ↦ inr (rw (rate_limit, passes) refl)
    | inr none_left ↦ inl (rw (rate_limit, none_left) refl)
  ]
