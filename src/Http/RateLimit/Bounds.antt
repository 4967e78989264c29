-- ===== src/Http/RateLimit/Bounds.antt =====
-- How many requests a token bucket lets through.
use go_order_lab.Prelude.{
  ℕ, zero, suc, ◌≤◌, ◌^◌, ◌≡◌, refl, ap, ◌∙◌, Bool, true, false, List, [], ◌∷◌, ℤ, pos, ◌≤ℤ◌, ◌-ℤ◌,
  int_laws, arith, length, min, -ℤ_parts, ◌+◌, if◌then◌else◌, Bool-cases, inl, inr,
}
use go_order_lab.Floats.{Floats}
use go_order_lab.Http.RateLimit.{
  TokenBucketConfig, TokenBucketLimiter, config_burst, config_rps, new_token_bucket_limiter, refill,
  spend, allow, at_most,
}

module _ (R : Floats) where
  open R use {F, of_int, leb}

  -- The tokens are between 0 and the burst, and they are not taken back.
  pub record IsFilled (l : TokenBucketLimiter R) : Type 0 where
    pub nonneg : leb (of_int (pos 0)) l.tokens ≡ true
    pub bounded : leb l.tokens l.burst ≡ true
    pub rate : leb (of_int (pos 0)) l.rps ≡ true
    pub room : leb (of_int (pos 0)) l.burst ≡ true

  config_burst_pos : (cfg : TokenBucketConfig R) → pos 1 ≤ℤ config_burst R cfg
  unfolding config_burst
  config_burst_pos cfg = ground arith

  config_rps_nonneg : (cfg : TokenBucketConfig R) → leb (of_int (pos 0)) (config_rps R cfg) ≡ true
  config_rps_nonneg cfg = elim (Bool-cases (leb cfg.rps (of_int (pos 0)))) [
    | inl off ↦ rw off (R.of_int_mono (pos 0) (pos 20) (omega arith))
    | inr on ↦ rw on (R.leb_total cfg.rps (of_int (pos 0)) on)
  ]

  new_token_bucket_limiter-IsFilled :
      (cfg : TokenBucketConfig R) (now : ℤ) → IsFilled (new_token_bucket_limiter R cfg now)
  unfolding new_token_bucket_limiter
  new_token_bucket_limiter-IsFilled cfg now =
      let some_burst = config_burst_pos cfg in
      let room = R.of_int_mono (pos 0) (config_burst R cfg) (omega (arith, some_burst)) in
      record {
        nonneg = room;
        bounded = R.leb_refl (of_int (config_burst R cfg));
        rate = config_rps_nonneg cfg;
        room = room;
      }

  at_most_filled :
      (x limit : F)
      → leb (of_int (pos 0)) x ≡ true
      → leb (of_int (pos 0)) limit ≡ true
      → (leb (of_int (pos 0)) (at_most R x limit) ≡ true) × (leb (at_most R x limit) limit ≡ true)
  at_most_filled x limit h k = ground (arith, R.leb_refl limit)

  refill-IsFilled : (now : ℤ) (l : TokenBucketLimiter R) → IsFilled l → IsFilled (refill R now l)
  unfolding refill
  refill-IsFilled now l h =
      let elapsed = R.seconds (now -ℤ l.last_fill) in
      elim (Bool-cases (leb elapsed (of_int (pos 0)))) [
        | inl still ↦ rw still h
        | inr later ↦
            (let gain = R.mul elapsed l.rps in
              let more =
                R.mul_nonneg elapsed l.rps (R.leb_total elapsed (of_int (pos 0)) later) h.rate in
              let sum =
                R.leb_trans (of_int (pos 0)) l.tokens (R.add l.tokens gain) h.nonneg
                  (R.add_grows l.tokens gain more) in
              let (low, high) = at_most_filled (R.add l.tokens gain) l.burst sum h.room in
              rw later (record { nonneg = low; bounded = high; rate = h.rate; room = h.room }))
      ]

  spend-IsFilled : (l : TokenBucketLimiter R) → IsFilled l → IsFilled (spend R l).1
  unfolding spend
  spend-IsFilled l h = elim (Bool-cases (leb (of_int (pos 1)) l.tokens)) [
    | inr empty ↦ rw empty h
    | inl full ↦
        (let (low, less) = R.sub_one l.tokens full in
          rw full (record {
            nonneg = low;
            bounded = R.leb_trans (R.sub l.tokens (of_int (pos 1))) l.tokens l.burst less h.bounded;
            rate = h.rate;
            room = h.room;
          }))
  ]

  -- The answers to requests at the given instants, and the limiter after them.
  abbrev pub answers : List ℤ → TokenBucketLimiter R → List Bool × TokenBucketLimiter R
  answers [] l = ([], l)
  answers (now ∷ later) l =
      let (b, l') = allow R now l in let (bs, l'') = answers later l' in (b ∷ bs, l'')

  answers_keep :
      (times : List ℤ) (l : TokenBucketLimiter R) → IsFilled l → IsFilled (answers times l).1
  unfolding allow
  answers_keep [] l h = h
  answers_keep (now ∷ later) l h =
      answers_keep later (allow R now l).1
        (spend-IsFilled (refill R now l) (refill-IsFilled now l h))

  -- Whatever the configuration and the instants of the requests, and also if the clock goes back, the
  -- tokens stay between 0 and the burst.
  pub answers-IsFilled :
      (cfg : TokenBucketConfig R) (start : ℤ) (times : List ℤ)
      → IsFilled (answers times (new_token_bucket_limiter R cfg start)).1
  answers-IsFilled cfg start times =
      answers_keep times (new_token_bucket_limiter R cfg start)
        (new_token_bucket_limiter-IsFilled cfg start)

  abbrev pub admitted : List Bool → ℕ
  admitted [] = 0
  admitted (b ∷ bs) = (if b then 1 else 0) + admitted bs

  -- No instant is later than `start`.
  abbrev pub NotAfter : ℤ → List ℤ → Type 0
  NotAfter start [] = Unit
  NotAfter start (t ∷ ts) = (t ≤ℤ start) × NotAfter start ts

  refill_still : (now : ℤ) (l : TokenBucketLimiter R) → now ≤ℤ l.last_fill → refill R now l ≡ l
  unfolding refill
  refill_still now l early =
      rw (R.seconds_none (now -ℤ l.last_fill) (omega (int_laws, -ℤ_parts now l.last_fill))) refl

  allow_empty :
      (now : ℤ) (l : TokenBucketLimiter R)
      → now ≤ℤ l.last_fill
      → l.tokens ≡ of_int (pos 0)
      → allow R now l ≡ (false, l)
  unfolding allow spend
  allow_empty now l early empty =
      let none : leb (of_int (pos 1)) l.tokens ≡ false =
        ap (leb (of_int (pos 1))) empty ∙ R.one_positive in
      ap (spend R) (refill_still now l early) ∙ rw (spend, none) refl

  allow_full :
      (now : ℤ) (l : TokenBucketLimiter R) (k : ℕ)
      → now ≤ℤ l.last_fill
      → l.tokens ≡ of_int (pos (suc k))
      → allow R now l ≡ (true, record l { tokens = R.sub l.tokens (of_int (pos 1)) })
  unfolding allow spend
  allow_full now l k early tokens =
      let some_left = R.of_int_mono (pos 1) (pos (suc k)) (omega arith) in
      let enough : leb (of_int (pos 1)) l.tokens ≡ true =
        ap (leb (of_int (pos 1))) tokens ∙ some_left in
      ap (spend R) (refill_still now l early) ∙ rw (spend, enough) refl

  admitted_still :
      (times : List ℤ) (l : TokenBucketLimiter R) (k : ℕ)
      → k ≤ 2 ^ 53
      → l.tokens ≡ of_int (pos k)
      → NotAfter l.last_fill times
      → admitted (answers times l).0 ≡ min (length times) k
  admitted_still [] l k small tokens early = ground arith
  admitted_still (now ∷ later) l zero small tokens early =
      rw (allow_empty now l early.0 tokens)
        (ground (arith, admitted_still later l zero small tokens early.1))
  admitted_still (now ∷ later) l (suc k) small tokens early =
      let less : R.sub l.tokens (of_int (pos 1)) ≡ of_int (pos k) =
        ap (λ x. R.sub x (of_int (pos 1))) tokens ∙ R.sub_exact k (omega arith) in
      let rest =
        admitted_still later (record l { tokens = R.sub l.tokens (of_int (pos 1)) }) k (omega arith)
          less early.1 in
      rw (allow_full now l k early.0 tokens) (ground (arith, rest))

  -- A new limiter lets as many of the requests at one instant, or before it, through as its burst says,
  -- and refuses every further one.
  pub admitted_burst :
      (cfg : TokenBucketConfig R) (start : ℤ) (times : List ℤ) (burst : ℕ)
      → config_burst R cfg ≡ pos burst
      → burst ≤ 2 ^ 53
      → NotAfter start times
      → admitted (answers times (new_token_bucket_limiter R cfg start)).0 ≡ min (length times) burst
  unfolding new_token_bucket_limiter
  admitted_burst cfg start times burst size small early =
      admitted_still times (new_token_bucket_limiter R cfg start) burst small (ap of_int size) early
