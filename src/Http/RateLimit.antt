-- ===== src/Http/RateLimit.antt =====
-- internal/middleware/rate_limit.go. The calls take a mutex, so they come one after the other.
pub mod Bounds
use go_order_lab.Prelude.{
  Bool, true, false, not, ℤ, pos, ◌-ℤ◌, leb_ℤ, Text, codes, if◌then◌else◌, List, [], ◌∷◌,
}
use go_order_lab.Floats.{Floats}
use go_order_lab.Http.{Context, Chain, Handler, refuse}

module _ (R : Floats) where
  open R use {F, of_int, leb}

  pub record TokenBucketConfig : Type 0 where
    pub rps : F
    pub burst : ℤ

  pub record TokenBucketLimiter : Type 0 where
    pub rps : F
    pub burst : F
    pub tokens : F
    pub last_fill : ℤ

  abbrev pub none_left : F
  none_left = of_int (pos 0)

  abbrev pub one : F
  one = of_int (pos 1)

  abbrev pub config_rps : TokenBucketConfig → F
  config_rps cfg = if leb cfg.rps none_left then of_int (pos 20) else cfg.rps

  -- The burst of the configuration, else one second's tokens, else 1.
  unfoldable pub config_burst : TokenBucketConfig → ℤ
  config_burst cfg =
      let second = R.truncate (config_rps cfg) in
      if leb_ℤ cfg.burst (pos 0)
      then (if leb_ℤ second (pos 0) then pos 1 else second)
      else cfg.burst

  unfoldable pub new_token_bucket_limiter : TokenBucketConfig → ℤ → TokenBucketLimiter
  unfolding config_burst
  new_token_bucket_limiter cfg now = record {
    rps = config_rps cfg;
    burst = of_int (config_burst cfg);
    tokens = of_int (config_burst cfg);
    last_fill = now;
  }

  abbrev pub at_most : F → F → F
  at_most x limit = if leb x limit then x else limit

  -- The tokens of the time since the last fill, up to the burst.
  unfoldable pub refill : ℤ → TokenBucketLimiter → TokenBucketLimiter
  refill now l =
      let elapsed = R.seconds (now -ℤ l.last_fill) in
      if leb elapsed none_left then l else record l {
        tokens = at_most (R.add l.tokens (R.mul elapsed l.rps)) l.burst;
        last_fill = now;
      }

  unfoldable pub spend : TokenBucketLimiter → Bool × TokenBucketLimiter
  spend l =
      if leb one l.tokens then (true, record l { tokens = R.sub l.tokens one }) else (false, l)

  unfoldable pub allow : ℤ → TokenBucketLimiter → Bool × TokenBucketLimiter
  unfolding refill spend
  allow now l = spend (refill now l)

module _ (R : Floats) {A S : Type 0} where
  -- `blocked` counts the event; the state of the chain holds the limiter through `get` and `put`.
  unfoldable pub rate_limit :
      (get : S → TokenBucketLimiter R) (put : TokenBucketLimiter R → S → S) (blocked : S → S)
      → ℤ
      → Handler A S
  unfolding allow
  rate_limit get put blocked now next (c, s) =
      let (passes, l) = allow R now (get s) in
      if passes
      then next (c, put l s)
      else (refuse 429 (codes "too many requests") c, blocked (put l s))
