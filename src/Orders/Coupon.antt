-- ===== src/Orders/Coupon.antt =====
-- `applyCoupon` of internal/service/order.go.
use go_order_lab.Prelude.{
  ℕ, Bool, not, ◌&&◌, ◌||◌, [], ◌∷◌, Result, ok, err, failure, Action, query_or, pure, raise_if,
  ◌>>=◌, ◌>>◌, ℤ, pos, negsuc, ltb_ℤ, codes, ◌==◌, if◌then◌else◌,
}
use go_order_lab.Store.Rows.{has_id}
use go_order_lab.Model.{Coupon, coupon_columns, UserCoupon, expired, used, is_unused, no_base}
use go_order_lab.Env.{Env, World, save_user_coupon}

-- The zero `time.Time`, in nanoseconds from the Unix epoch.
abbrev pub zero_time : ℤ
zero_time = negsuc 62135596799999999999

-- The `Coupon` of a user coupon whose coupon is gone.
abbrev pub zero_coupon : Coupon
zero_coupon = record {
  base = no_base;
  title = [];
  threshold = pos 0;
  discount = pos 0;
  stock = pos 0;
  start_at = zero_time;
  end_at = zero_time;
}

abbrev pub owns_coupon : ℕ → ℕ → UserCoupon → Bool
owns_coupon user_coupon_id user_id c = c.id == user_coupon_id && c.user_id == user_id

abbrev pub is_current : ℤ → Coupon → Bool
is_current now coupon = not (ltb_ℤ now coupon.start_at || ltb_ℤ coupon.end_at now)

module _ (E : Env) where
  -- `Preload("Coupon")`: a second query by the key.
  unfoldable pub preload_coupon : UserCoupon → World E → Result Coupon
  preload_coupon c w = elim (E.coupons.find (has_id coupon_columns c.coupon_id) w.db.coupons) [
    | err e ↦ err e
    | ok [] ↦ ok zero_coupon
    | ok (coupon ∷ _) ↦ ok coupon
  ]

  -- `_ = tx.Save(&userCoupon).Error`
  unfoldable pub expire_coupon : UserCoupon → World E → World E
  expire_coupon c w = (save_user_coupon E (record c { status = expired }) w).1

  unfoldable pub use_coupon : UserCoupon → Coupon → ℤ → ℤ → Action (World E) ℤ
  unfolding expire_coupon
  use_coupon c coupon original_amount now w =
      if is_current now coupon
      then (do
        raise_if (ltb_ℤ original_amount coupon.threshold)
            (failure (codes "coupon threshold not reached"))
        save_user_coupon E (record c { status = used })
        pure coupon.discount)
          w
      else (err (failure (codes "coupon expired")), expire_coupon c w)

  -- The discount; `now` is `time.Now()`.
  unfoldable pub apply_coupon : ℕ → ℕ → ℤ → ℤ → Action (World E) ℤ
  unfolding preload_coupon use_coupon
  apply_coupon user_id user_coupon_id original_amount now =
      if user_coupon_id == 0 then pure (pos 0) else do
        c ←
            query_or (failure (codes "user coupon not found"))
              (λ w. E.user_coupons.first (owns_coupon user_coupon_id user_id) w.db.user_coupons)
        coupon ← query_or (failure (codes "user coupon not found")) (preload_coupon c)
        raise_if (not (is_unused c.status)) (failure (codes "user coupon is not unused"))
        use_coupon c coupon original_amount now
