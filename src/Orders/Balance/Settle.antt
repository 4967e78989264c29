-- ===== src/Orders/Balance/Settle.antt =====
-- What the moves of an order's status and the end of an activity leave of the account.
use go_order_lab.Prelude.{
  ℕ, ◌<◌, ◌≡◌, refl, Bool, true, false, ok, ℤ, pos, ◌+ℤ◌, ◌≤ℤ◌, IsInt64, int_laws, arith,
}
use go_order_lab.Store.Sums.{sum_by-update_where}
use go_order_lab.Store.Effects.{save_sum, sum_by-first}
use go_order_lab.Model.{Order, OrderStatus, Activity, is_open, ended}
use go_order_lab.Env.{Env, Db, World}
use go_order_lab.Orders.Service.{OrderService}
use go_order_lab.Orders.Restore.{restore_stock}
use go_order_lab.Orders.Compensate.{touch_order}
use go_order_lab.Orders.Life.{is_live}
use go_order_lab.Orders.Balance.{
  Balanced, stock_part, taken_part, taken_part_nonneg, stock_total, taken_total,
}
use go_order_lab.Orders.Balance.Restore.{restore_stock_orders, restore_stock_total}

-- Where a unit is taken there is room for it.
room_for_unit :
    (stock taken supply : ℤ)
    → pos 0 ≤ℤ stock
    → pos 1 ≤ℤ taken
    → stock +ℤ taken ≡ supply
    → IsInt64 supply
    → IsInt64 (stock +ℤ pos 1)
room_for_unit stock taken supply h k e i = grind int_laws

open_live : (s : OrderStatus) → is_open s ≡ true → is_live s ≡ true
open_live s h = ground arith

module _ (E : Env) (k : ℕ) (supply : ℤ) (k_pos : 0 < k) (fits : IsInt64 supply)
    (S : OrderService) where
  -- An open order gives its unit back and no longer counts.
  pub settle-Balanced :
      (p : Order → Bool) (order : Order) (st : OrderStatus) (w : World E) (s' : E.orders.State)
      → is_open order.status ≡ true
      → is_live st ≡ false
      → E.orders.first p w.db.orders ≡ ok order
      → (restore_stock E S order w).0 ≡ ok tt
      → E.orders.save (record order { status = st }) (restore_stock E S order w).1.db.orders
        ≡ ok (tt, s')
      → Balanced E k supply w.db
      → Balanced E k supply (record ((restore_stock E S order w).1.db) { orders = s' })
  settle-Balanced p order st w s' opened settled found restored saved b =
      let w1 = (restore_stock E S order w).1 in
      let same : w1.db.orders ≡ w.db.orders = restore_stock_orders E S order w in
      let present = E.orders.first_ok p w.db.orders order found in
      let held =
        sum_by-first (taken_part k) (taken_part_nonneg k) p (E.orders.rows w.db.orders) order
          present in
      let live = open_live order.status opened in
      let exchange =
        save_sum E.orders (taken_part k) (λ t r. refl) p order (record order { status = st })
          w.db.orders s' found refl (rw same at saved) in
      let returned = restore_stock_total E k S order w k_pos restored (λ e.
        room_for_unit (stock_total E k w.db) (taken_total E k w.db) supply b.in_stock
          (grind (int_laws, held)) b.accounted fits) in
      record {
        in_stock = grind (int_laws, returned, b.in_stock);
        accounted = grind (int_laws, returned, exchange, b.accounted);
      }

module _ (E : Env) (k : ℕ) (supply : ℤ) where
  -- A write of an order that keeps its unit.
  pub hold-Balanced :
      (p : Order → Bool) (order : Order) (st : OrderStatus) (d : Db E) (s' : E.orders.State)
      → is_live order.status ≡ true
      → is_live st ≡ true
      → E.orders.first p d.orders ≡ ok order
      → E.orders.save (record order { status = st }) d.orders ≡ ok (tt, s')
      → Balanced E k supply d
      → Balanced E k supply (record d { orders = s' })
  hold-Balanced p order st d s' held holds found saved b =
      let exchange =
        save_sum E.orders (taken_part k) (λ t r. refl) p order (record order { status = st })
          d.orders s' found refl saved in
      record { in_stock = b.in_stock; accounted = grind (int_laws, exchange, b.accounted) }

  -- The managed columns do not count.
  pub touched-Balanced :
      (d : Db E) (p : Order → Bool) (now : ℤ) (n : ℕ) (s' : E.orders.State)
      → E.orders.update_column p (touch_order now) d.orders ≡ ok (n, s')
      → Balanced E k supply d
      → Balanced E k supply (record d { orders = s' })
  touched-Balanced d p now n s' updated b =
      let rows = E.orders.update_column_ok p (touch_order now) d.orders n s' updated in
      let same =
        sum_by-update_where (taken_part k) p (touch_order now) (E.orders.rows d.orders)
          (λ r. refl) in
      record { in_stock = b.in_stock; accounted = rw (rows, same) b.accounted }

  pub ended_activity-Balanced :
      (d : Db E) (p : Activity → Bool) (a : Activity) (s' : E.activities.State)
      → E.activities.first p d.activities ≡ ok a
      → E.activities.save (record a { status = ended }) d.activities ≡ ok (tt, s')
      → Balanced E k supply d
      → Balanced E k supply (record d { activities = s' })
  ended_activity-Balanced d p a s' found saved b =
      let exchange =
        save_sum E.activities (stock_part k) (λ t r. refl) p a (record a { status = ended })
          d.activities s' found refl saved in
      record {
        in_stock = grind (int_laws, exchange, b.in_stock);
        accounted = grind (int_laws, exchange, b.accounted);
      }
