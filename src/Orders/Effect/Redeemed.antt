-- ===== src/Orders/Effect/Redeemed.antt =====
-- The discount that applyCoupon of internal/service/order.go gives.
use go_order_lab.Prelude.{
  ℕ, ◌≡◌, refl, ap, ◌∙◌, sym, true, Option, none, some, List, [], ◌∷◌, ok, ℤ, pos, ◌≤ℤ◌, ltb_ℤ,
  arith, Result-cases, Bool-cases, inl, inr, ◌⊎◌, ◌==◌, ==_iff,
}
use go_order_lab.Store.Rows.{has_id, find_first, select}
use go_order_lab.Model.{Coupon, coupon_columns, UserCoupon, is_unused, used}
use go_order_lab.Env.{Env, World}
use go_order_lab.Orders.Coupon.{
  zero_coupon, owns_coupon, is_current, preload_coupon, use_coupon, apply_coupon,
}

-- The coupon of a key, or Go's zero value.
abbrev pub coupon_of : Option Coupon → Coupon
coupon_of none = zero_coupon
coupon_of (some c) = c

abbrev pub coupon_at : List Coupon → ℕ → Coupon
coupon_at cs k = coupon_of (find_first (has_id coupon_columns k) cs)

abbrev first_coupon : List Coupon → Coupon
first_coupon [] = zero_coupon
first_coupon (c ∷ cs) = c

first_coupon-select :
    (cs : List Coupon) (k : ℕ) → first_coupon (select (has_id coupon_columns k) cs) ≡ coupon_at cs k
first_coupon-select [] k = refl
first_coupon-select (c ∷ cs) k = elim (Bool-cases (c.id == k)) [
  | inl hit ↦ rw hit refl
  | inr miss ↦ rw miss (first_coupon-select cs k)
]

module _ (E : Env) (user_id user_coupon_id : ℕ) (original now : ℤ) where
  -- An unused coupon of the user, in its time, whose threshold the price reaches.
  pub record Redeemed (claims : List UserCoupon) (coupons : List Coupon) (discount : ℤ)
      : Type 0 where
    pub row : UserCoupon
    pub found : find_first (owns_coupon user_coupon_id user_id) claims ≡ some row
    pub unused : is_unused row.status ≡ true
    pub coupon : Coupon
    pub own_coupon : coupon ≡ coupon_at coupons row.coupon_id
    pub started : coupon.start_at ≤ℤ now
    pub not_over : now ≤ℤ coupon.end_at
    pub reached : coupon.threshold ≤ℤ original
    pub discounted : discount ≡ coupon.discount

  abbrev pub Discounted : World E → ℤ → Type 0
  Discounted w discount =
      ((user_coupon_id ≡ 0) × (discount ≡ pos 0))
      ⊎ Redeemed (E.user_coupons.rows w.db.user_coupons) (E.coupons.rows w.db.coupons) discount

  preload_lem :
      (c : UserCoupon) (w : World E) (coupon : Coupon)
      → preload_coupon E c w ≡ ok coupon
      → coupon ≡ coupon_at (E.coupons.rows w.db.coupons) c.coupon_id
  unfolding preload_coupon
  preload_lem c w coupon h =
      let p = has_id coupon_columns c.coupon_id in
      elim (Result-cases (E.coupons.find p w.db.coupons)) [
        | inr (e, unread) ↦ absurd (ground arith)
        | inl (cs, found) ↦
            (let rows = E.coupons.find_ok p w.db.coupons cs found in
              let head : coupon ≡ first_coupon cs = head_lem cs found in
              head
              ∙ ap first_coupon rows
              ∙ first_coupon-select (E.coupons.rows w.db.coupons) c.coupon_id)
      ]
    where
      head_lem :
          (cs : List Coupon)
          → E.coupons.find (has_id coupon_columns c.coupon_id) w.db.coupons ≡ ok cs
          → coupon ≡ first_coupon cs
      head_lem [] found = ground arith
      head_lem (x ∷ xs) found = ground arith

  use_lem :
      (c : UserCoupon) (coupon : Coupon) (w : World E) (d : ℤ)
      → (use_coupon E c coupon original now w).0 ≡ ok d
      → (coupon.start_at ≤ℤ now)
        × (now ≤ℤ coupon.end_at)
        × (coupon.threshold ≤ℤ original)
        × (d ≡ coupon.discount)
  unfolding use_coupon
  use_lem c coupon w d h = elim (Bool-cases (is_current now coupon)) [
    | inr old ↦ absurd (ground arith)
    | inl current ↦ elim (Bool-cases (ltb_ℤ original coupon.threshold)) [
      | inl below ↦ absurd (ground arith)
      | inr reached ↦
          elim (Result-cases (E.user_coupons.save (record c { status = used }) w.db.user_coupons)) [
            | inr (e, unsaved) ↦ absurd (ground arith)
            | inl (u, saved) ↦
                (let same : ◌≡◌ {A = ℤ} coupon.discount d = ground arith in
                  (ground arith, ground arith, ground arith, sym same))
          ]
    ]
  ]

  pub apply_coupon-Discounted :
      (w : World E) (d : ℤ)
      → (apply_coupon E user_id user_coupon_id original now w).0 ≡ ok d
      → Discounted w d
  unfolding apply_coupon
  apply_coupon-Discounted w d h = elim (Bool-cases (user_coupon_id == 0)) [
    | inl plain ↦
        (let nothing : ◌≡◌ {A = ℤ} (pos 0) d = ground arith in
          inl ((==_iff user_coupon_id 0).0 plain, sym nothing))
    | inr wanted ↦
        elim (Result-cases
          (E.user_coupons.first (owns_coupon user_coupon_id user_id) w.db.user_coupons)) [
            | inr (e, missing) ↦ absurd (ground arith)
            | inl (c, found) ↦ elim (Result-cases (preload_coupon E c w)) [
              | inr (e, unread) ↦ absurd (ground arith)
              | inl (coupon, loaded) ↦ elim (Bool-cases (is_unused c.status)) [
                | inr gone ↦ absurd (ground arith)
                | inl unused ↦
                    (let last : (use_coupon E c coupon original now w).0 ≡ ok d = ground arith in
                      let (started, not_over, reached, discounted) = use_lem c coupon w d last in
                      inr (record {
                        row = c;
                        found =
                            E.user_coupons.first_ok (owns_coupon user_coupon_id user_id)
                              w.db.user_coupons c found;
                        unused = unused;
                        coupon = coupon;
                        own_coupon = preload_lem c w coupon loaded;
                        started = started;
                        not_over = not_over;
                        reached = reached;
                        discounted = discounted;
                      }))
              ]
            ]
          ]
  ]
