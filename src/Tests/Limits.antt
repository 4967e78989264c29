-- ===== src/Tests/Limits.antt =====
-- The theorems on the limiter at a concrete configuration.
use go_order_lab.Prelude.{◌≡◌, refl, [], ◌∷◌, pos, arith, min}
use go_order_lab.Http.RateLimit.{TokenBucketConfig, new_token_bucket_limiter, config_burst}
use go_order_lab.Http.RateLimit.Bounds.{answers, admitted, admitted_burst}
use go_order_lab.Tests.Numbers.{numbers}

-- One request a second, and two at once.
abbrev slow : TokenBucketConfig numbers
slow = record { rps = 1000; burst = pos 2 }

slow_burst : config_burst numbers slow ≡ pos 2
unfolding config_burst
slow_burst = refl

admitted_burst_example :
    admitted numbers
      (answers numbers
        (pos 5 ∷ pos 5 ∷ pos 5 ∷ [])
        (new_token_bucket_limiter numbers slow (pos 5))).0
    ≡ min 3 2
admitted_burst_example =
    admitted_burst numbers slow (pos 5) (pos 5 ∷ pos 5 ∷ pos 5 ∷ []) 2 slow_burst (omega arith)
      (omega arith)
