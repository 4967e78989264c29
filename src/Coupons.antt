-- ===== src/Coupons.antt =====
-- `CouponService` of internal/service/coupon.go. The lists come newest first.
pub mod Account
use go_order_lab.Prelude.{
  ℕ, Bool, true, false, ◌||◌, ◌&&◌, Option, none, some, List, map, reverse, Result, ok, err, Error,
  failure, Action, query, query_or, pure, raise_if, ◌>>=◌, ◌>>◌, ℤ, pos, negsuc, ltb_ℤ, leb_ℤ, ◌+ℤ◌,
  ◌-ℤ◌, wrap64, Text, codes, ◌==◌, ltb, if◌then◌else◌, execute,
}
use go_order_lab.Store.Rows.{has_id, find_first}
use go_order_lab.Model.{Coupon, coupon_columns, UserCoupon, user_coupon_columns, unused, no_base}
use go_order_lab.Env.{Env, World, transaction, create_user_coupon}
use go_order_lab.Orders.Service.{seconds}
use go_order_lab.Orders.Coupon.{is_current, preload_coupon}

pub record CreateCouponInput : Type 0 where
  pub title : Text
  pub threshold : ℤ
  pub discount : ℤ
  pub stock : ℤ
  pub duration_seconds : ℤ

-- A week, where no duration is given.
abbrev pub duration : ℤ → ℤ
duration n = if leb_ℤ n (pos 0) then pos 604_800 else n

abbrev pub new_coupon : CreateCouponInput → ℤ → Coupon
new_coupon input now = record {
  base = no_base;
  title = input.title;
  threshold = input.threshold;
  discount = input.discount;
  stock = input.stock;
  start_at = now;
  end_at = now +ℤ seconds (duration input.duration_seconds);
}

abbrev pub claimed_by : ℕ → ℕ → UserCoupon → Bool
claimed_by user_id coupon_id c = c.user_id == user_id && c.coupon_id == coupon_id

abbrev pub new_claim : ℕ → ℕ → UserCoupon
new_claim user_id coupon_id = record {
  base = no_base;
  user_id = user_id;
  coupon_id = coupon_id;
  status = unused;
}

module _ (E : Env) where
  abbrev pub create_coupon_row : Coupon → Action (World E) Coupon
  create_coupon_row r =
      execute (λ w. E.coupons.create r w.db.coupons)
        (λ s w. record w { db = record (w.db) { coupons = s } })

  abbrev pub save_coupon : Coupon → Action (World E) (Unit {0})
  save_coupon r =
      execute (λ w. E.coupons.save r w.db.coupons)
        (λ s w. record w { db = record (w.db) { coupons = s } })

  -- `now` is `time.Now()`.
  unfoldable pub create : CreateCouponInput → ℤ → Action (World E) Coupon
  unfolding seconds
  create input now =
      raise_if (leb_ℤ input.discount (pos 0) || leb_ℤ input.stock (pos 0))
        (failure (codes "discount and stock must be positive"))
      >> create_coupon_row (new_coupon input now)

  unfoldable pub list : World E → Result (List Coupon)
  list w = elim (E.coupons.find (λ _. true) w.db.coupons) [
    | ok cs ↦ ok (reverse cs)
    | err e ↦ err e
  ]

  -- The transaction of `Claim`.
  unfoldable pub claim_tx : ℕ → ℕ → ℤ → Action (World E) UserCoupon
  claim_tx user_id coupon_id now = do
    coupon ←
        query_or (failure (codes "coupon not found"))
          (λ w. E.coupons.first (has_id coupon_columns coupon_id) w.db.coupons)
    raise_if (ltb_ℤ now coupon.start_at || ltb_ℤ coupon.end_at now)
        (failure (codes "coupon is not active"))
    raise_if (leb_ℤ coupon.stock (pos 0)) (failure (codes "coupon sold out"))
    count ← query (λ w. E.user_coupons.count_where (claimed_by user_id coupon_id) w.db.user_coupons)
    raise_if (ltb 0 count) (failure (codes "coupon already claimed"))
    save_coupon (record coupon { stock = wrap64 (coupon.stock -ℤ pos 1) })
    create_user_coupon E (new_claim user_id coupon_id)

  -- The user coupon, read again with its coupon, as far as the reads succeed.
  abbrev pub with_coupon : UserCoupon → World E → UserCoupon × Option Coupon
  with_coupon c w =
      elim (E.user_coupons.first (has_id user_coupon_columns c.id) w.db.user_coupons) [
        | err _ ↦ (c, none)
        | ok c' ↦ elim (preload_coupon E c' w) [
          | err _ ↦ (c', none)
          | ok coupon ↦ (c', some coupon)
        ]
      ]

  unfoldable pub claim : ℕ → ℕ → ℤ → Action (World E) (UserCoupon × Option Coupon)
  unfolding claim_tx preload_coupon
  claim user_id coupon_id now = do
    c ← transaction E (claim_tx user_id coupon_id now)
    λ w. (ok (with_coupon c w), w)

  -- The coupon of each row, by the second query; a row whose coupon is not found has none.
  abbrev pub coupon_of : List Coupon → UserCoupon → UserCoupon × Option Coupon
  coupon_of cs c = (c, find_first (has_id coupon_columns c.coupon_id) cs)

  unfoldable pub my_coupons : ℕ → World E → Result (List (UserCoupon × Option Coupon))
  my_coupons user_id w = elim (E.user_coupons.find (λ c. c.user_id == user_id) w.db.user_coupons) [
    | err e ↦ err e
    | ok claims ↦ elim (E.coupons.find (λ _. true) w.db.coupons) [
      | err e ↦ err e
      | ok cs ↦ ok (map (coupon_of cs) (reverse claims))
    ]
  ]
