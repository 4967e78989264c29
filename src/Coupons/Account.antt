-- ===== src/Coupons/Account.antt =====
-- The account of a coupon: what is left of it, and what its users have claimed.
use go_order_lab.Prelude.{
  ℕ, ◌≡◌, refl, subst, false, some, ok, ℤ, pos, ◌+ℤ◌, ◌-ℤ◌, ◌≤ℤ◌, leb_ℤ, IsInt64, wrap64, wrap64_id,
  int_laws, arith, ◌==◌, ==_iff, if◌then◌else◌, Result-cases, Bool-cases, inl, inr,
}
use go_order_lab.Store.Rows.{has_id, find_first, find_first-holds}
use go_order_lab.Store.Sums.{sum_by}
use go_order_lab.Store.Effects.{at_id, at_id_found, save_sum, create_sum, sum_by-nonneg}
use go_order_lab.Model.{Coupon, coupon_columns, UserCoupon}
use go_order_lab.Env.{Env, Db, World, transaction}
use go_order_lab.Env.Laws.{transaction-keeps, bind-keeps}
use go_order_lab.Coupons.{new_claim, claim_tx, claim, with_coupon}

module _ (k : ℕ) where
  abbrev pub left_part : Coupon → ℤ
  left_part = at_id coupon_columns k (λ c. c.stock)

  abbrev pub claimed_part : UserCoupon → ℤ
  claimed_part c = if c.coupon_id == k then pos 1 else pos 0

  claimed_part_nonneg : (c : UserCoupon) → pos 0 ≤ℤ claimed_part c
  claimed_part_nonneg c = ground arith

module _ (E : Env) (k : ℕ) where
  abbrev pub left_total : Db E → ℤ
  left_total d = sum_by (left_part k) (E.coupons.rows d.coupons)

  abbrev pub claimed_total : Db E → ℤ
  claimed_total d = sum_by (claimed_part k) (E.user_coupons.rows d.user_coupons)

-- What is left of coupon `k` is not negative, and with the claims it makes up the issue.
pub record Issued (E : Env) (k : ℕ) (issue : ℤ) (d : Db E) : Type 0 where
  pub in_stock : pos 0 ≤ℤ left_total E k d
  pub accounted : left_total E k d +ℤ claimed_total E k d ≡ issue

one_less :
    (stock taken supply : ℤ)
    → leb_ℤ stock (pos 0) ≡ false
    → pos 0 ≤ℤ taken
    → stock +ℤ taken ≡ supply
    → IsInt64 supply
    → IsInt64 (stock -ℤ pos 1)
one_less stock taken supply some_left h e i = grind int_laws

module _ (E : Env) (k : ℕ) (issue : ℤ) (fits : IsInt64 issue) where
  claimed-Issued :
      (d : Db E) (j : ℕ) (c : Coupon) (claim stored : UserCoupon) (s : E.coupons.State)
      (t : E.user_coupons.State)
      → claim.coupon_id ≡ j
      → leb_ℤ c.stock (pos 0) ≡ false
      → E.coupons.first (has_id coupon_columns j) d.coupons ≡ ok c
      → E.coupons.save (record c { stock = wrap64 (c.stock -ℤ pos 1) }) d.coupons ≡ ok (tt, s)
      → E.user_coupons.create claim d.user_coupons ≡ ok (stored, t)
      → Issued E k issue d
      → Issued E k issue (record d { coupons = s; user_coupons = t })
  claimed-Issued d j c claim stored s t of left found saved made b =
      let present = E.coupons.first_ok (has_id coupon_columns j) d.coupons c found in
      let key : c.id ≡ j =
        (==_iff c.id j).0
          (find_first-holds (has_id coupon_columns j) (E.coupons.rows d.coupons) c present) in
      let exchange =
        save_sum E.coupons (left_part k) (λ t r. refl) (has_id coupon_columns j) c
          (record c { stock = wrap64 (c.stock -ℤ pos 1) }) d.coupons s found refl saved in
      let taken =
        create_sum E.user_coupons (claimed_part k) (λ i t r. refl) claim d.user_coupons stored t
          made in
      elim (Bool-cases (j == k)) [
        | inr other ↦ record {
          in_stock = grind (int_laws, exchange, key, b.in_stock);
          accounted = grind (int_laws, exchange, taken, key, of, b.accounted);
        }
        | inl same ↦
            (let e : j ≡ k = (==_iff j k).0 same in
              let whole : left_total E k d ≡ c.stock =
                at_id_found coupon_columns k (λ b. b.stock) (E.coupons.rows d.coupons) c
                  (E.coupons.unique d.coupons)
                  (subst
                    (λ i. find_first (has_id coupon_columns i) (E.coupons.rows d.coupons) ≡ some c)
                    e present) in
              let exact : wrap64 (c.stock -ℤ pos 1) ≡ c.stock -ℤ pos 1 = wrap64_id _ (
                one_less c.stock (claimed_total E k d) issue left
                  (sum_by-nonneg (claimed_part k) (claimed_part_nonneg k)
                    (E.user_coupons.rows d.user_coupons))
                  (rw whole at b.accounted) fits) in
              record {
                in_stock = grind (int_laws, exchange, key, whole, exact, left, b.in_stock);
                accounted = grind (int_laws, exchange, key, whole, exact, taken, of, b.accounted);
              })
      ]

  claim_tx-Issued :
      (user_id coupon_id : ℕ) (now : ℤ) (w : World E) (r : UserCoupon)
      → (claim_tx E user_id coupon_id now w).0 ≡ ok r
      → Issued E k issue w.db
      → Issued E k issue (claim_tx E user_id coupon_id now w).1.db
  unfolding claim_tx
  claim_tx-Issued user_id coupon_id now w r done b =
      elim (Result-cases (E.coupons.first (has_id coupon_columns coupon_id) w.db.coupons)) [
        | inr (e, missing) ↦ absurd (ground arith)
        | inl (c, found) ↦
            elim (Result-cases
              (E.coupons.save (record c { stock = wrap64 (c.stock -ℤ pos 1) }) w.db.coupons)) [
                | inr (e, failed) ↦ absurd (ground arith)
                | inl ((u, s), saved) ↦
                    elim (Result-cases
                      (E.user_coupons.create (new_claim user_id coupon_id) w.db.user_coupons)) [
                        | inr (e, refused) ↦ absurd (ground arith)
                        | inl ((stored, t), made) ↦
                            (let left : leb_ℤ c.stock (pos 0) ≡ false = ground arith in
                              ground (
                                arith,
                                claimed-Issued w.db coupon_id c (new_claim user_id coupon_id) stored
                                    s t refl left found saved made b,
                              ))
                      ]
              ]
      ]

  -- Where what is left of a coupon and its claims make up an issue that fits in 64 bits, and what is
  -- left is not negative, both still hold after any claim of any coupon, whatever its outcome.
  pub claim-Issued :
      (user_id coupon_id : ℕ) (now : ℤ) (w : World E)
      → Issued E k issue w.db
      → Issued E k issue (claim E user_id coupon_id now w).1.db
  unfolding claim
  claim-Issued user_id coupon_id now w b =
      bind-keeps E (Issued E k issue) (transaction E (claim_tx E user_id coupon_id now))
        (λ c v. (ok (with_coupon E c v), v)) w
        (transaction-keeps E (Issued E k issue) (claim_tx E user_id coupon_id now) w b
          (λ r done. claim_tx-Issued user_id coupon_id now w r done b))
        (λ c v h. h)
