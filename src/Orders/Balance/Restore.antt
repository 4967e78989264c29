-- ===== src/Orders/Balance/Restore.antt =====
-- What `restoreStock` does to the account of an activity.
use go_order_lab.Prelude.{
  ℕ, ◌<◌, ◌≡◌, refl, subst, ==_iff, false, some, ok, ℤ, pos, ◌+ℤ◌, IsInt64, wrap64, wrap64_id,
  int_laws, arith, ◌==◌, ltb, if◌then◌else◌, List, [], ◌∷◌, text_eq, Result-cases, inl, inr,
  Bool-cases,
}
use go_order_lab.Store.Rows.{has_id, find_first, find_first-holds}
use go_order_lab.Store.Effects.{save_sum, at_id_found}
use go_order_lab.Store.Sums.{sum_by}
use go_order_lab.Model.{Activity, activity_columns, Order, OrderItem}
use go_order_lab.Env.{Env, World, for_each}
use go_order_lab.Orders.Service.{OrderService}
use go_order_lab.Orders.Restore.{restore_activity, restore_items, restore_stock, restore_item}
use go_order_lab.Orders.Balance.{stock_part, stock_total}

-- The unit of activity `k` that an order has taken.
abbrev pub unit_of : ℕ → Order → ℤ
unit_of k order = if order.activity_id == k then pos 1 else pos 0

module _ (E : Env) (k : ℕ) (S : OrderService) (order : Order) where
  -- The orders are left alone.
  pub restore_activity_orders :
      (w : World E) → (restore_activity E S order w).1.db.orders ≡ w.db.orders
  unfolding restore_activity
  restore_activity_orders w = ground arith

  saved_activity :
      (a : Activity) (s s' : E.activities.State)
      → E.activities.first (has_id activity_columns order.activity_id) s ≡ ok a
      → E.activities.save (record a { stock = wrap64 (a.stock +ℤ pos 1) }) s ≡ ok (tt, s')
      → (order.activity_id ≡ k → IsInt64 (sum_by (stock_part k) (E.activities.rows s) +ℤ pos 1))
      → sum_by (stock_part k) (E.activities.rows s')
        ≡ sum_by (stock_part k) (E.activities.rows s) +ℤ unit_of k order
  saved_activity a s s' found saved room =
      let present = E.activities.first_ok (has_id activity_columns order.activity_id) s a found in
      let key : a.id ≡ order.activity_id = (==_iff a.id order.activity_id).0 (
        find_first-holds (has_id activity_columns order.activity_id) (E.activities.rows s) a
          present) in
      let exchange =
        save_sum E.activities (stock_part k) (λ t r. refl)
          (has_id activity_columns order.activity_id) a
          (record a { stock = wrap64 (a.stock +ℤ pos 1) }) s s' found refl saved in
      elim (Bool-cases (order.activity_id == k)) [
        | inl same ↦
            (let e : order.activity_id ≡ k = (==_iff order.activity_id k).0 same in
              let whole : sum_by (stock_part k) (E.activities.rows s) ≡ a.stock =
                at_id_found activity_columns k (λ b. b.stock) (E.activities.rows s) a
                  (E.activities.unique s)
                  (subst
                    (λ i. find_first (has_id activity_columns i) (E.activities.rows s) ≡ some a) e
                    present) in
              let exact : wrap64 (a.stock +ℤ pos 1) ≡ a.stock +ℤ pos 1 =
                wrap64_id _ (rw whole at (room e)) in
              grind (int_laws, exchange, whole, exact))
        | inr other ↦ grind (int_laws, exchange)
      ]

  pub restore_activity_stock :
      (w : World E)
      → (restore_activity E S order w).0 ≡ ok tt
      → (order.activity_id ≡ k → IsInt64 (stock_total E k w.db +ℤ pos 1))
      → stock_total E k (restore_activity E S order w).1.db
        ≡ stock_total E k w.db +ℤ unit_of k order
  unfolding restore_activity
  restore_activity_stock w done room =
      elim (Result-cases
        (E.activities.first (has_id activity_columns order.activity_id) w.db.activities)) [
          | inr (e, missing) ↦ absurd (ground arith)
          | inl (a, found) ↦
              elim (Result-cases (
                E.activities.save (record a { stock = wrap64 (a.stock +ℤ pos 1) })
                  w.db.activities)) [
                    | inr (e, failed) ↦ absurd (ground arith)
                    | inl ((u, s'), saved) ↦
                        (let effect = saved_activity a w.db.activities s' found saved room in
                          ground (arith, effect))
                  ]
        ]

-- The stock of a cart order goes back to the products: neither orders nor activities change.
module _ (E : Env) where
  restore_item_frame :
      (i : OrderItem) (w : World E)
      → ((restore_item E i w).1.db.orders ≡ w.db.orders)
        × ((restore_item E i w).1.db.activities ≡ w.db.activities)
  unfolding restore_item
  restore_item_frame i w = ground arith

  for_each_frame :
      (is : List OrderItem) (w : World E)
      → ((for_each (restore_item E) is w).1.db.orders ≡ w.db.orders)
        × ((for_each (restore_item E) is w).1.db.activities ≡ w.db.activities)
  for_each_frame [] w = (refl, refl)
  for_each_frame (i ∷ is) w =
      ground (arith, restore_item_frame i w, for_each_frame is (restore_item E i w).1)

  restore_items_frame :
      (order : Order) (w : World E)
      → ((restore_items E order w).1.db.orders ≡ w.db.orders)
        × ((restore_items E order w).1.db.activities ≡ w.db.activities)
  unfolding restore_items
  restore_items_frame order w =
      elim (Result-cases
        (E.order_items.find (λ i. text_eq i.order_no order.order_no) w.db.order_items)) [
          | inl (items, e) ↦ rw e (for_each_frame items w)
          | inr (x, e) ↦ rw e (refl, refl)
        ]

  pub restore_stock_orders :
      (S : OrderService) (order : Order) (w : World E)
      → (restore_stock E S order w).1.db.orders ≡ w.db.orders
  unfolding restore_stock
  restore_stock_orders S order w = elim (Bool-cases (ltb 0 order.activity_id)) [
    | inl e ↦ rw e (restore_activity_orders E 0 S order w)
    | inr e ↦ rw e (restore_items_frame order w).0
  ]

  -- A restoration that succeeds puts the unit of the order back.
  pub restore_stock_total :
      (k : ℕ) (S : OrderService) (order : Order) (w : World E)
      → 0 < k
      → (restore_stock E S order w).0 ≡ ok tt
      → (order.activity_id ≡ k → IsInt64 (stock_total E k w.db +ℤ pos 1))
      → stock_total E k (restore_stock E S order w).1.db ≡ stock_total E k w.db +ℤ unit_of k order
  unfolding restore_stock
  restore_stock_total k S order w k_pos done room = elim (Bool-cases (ltb 0 order.activity_id)) [
    | inl e ↦ rw e (restore_activity_stock E k S order w (rw e at done) room)
    | inr e ↦
        rw (e, (restore_items_frame order w).1)
          (let no_unit : (order.activity_id == k) ≡ false = ground arith in
            rw no_unit (omega int_laws))
  ]
