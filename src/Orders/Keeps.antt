-- ===== src/Orders/Keeps.antt =====
-- What an invariant of the tables must promise on the few kinds of writes that internal/service/order.go
-- makes, so that its operations, with their loops, log lines and queues, keep it.
pub mod Place
pub mod Settle
pub mod Pay
pub mod Work
pub mod Sweep
pub mod Rounds
pub mod Aside
pub mod Cart
pub mod Run
use go_order_lab.Prelude.{ℕ, ◌<◌, ◌≡◌, Bool, true, false, ok, ℤ, pos, leb_ℤ, wrap64, ◌-ℤ◌}
use go_order_lab.Store.Rows.{has_id, any}
use go_order_lab.Model.{
  Activity, activity_columns, Order, OrderStatus, queued, wait_pay, is_open, ended,
}
use go_order_lab.Env.{Env, Db, World, create_order}
use go_order_lab.Env.Laws.{IgnoresLog}
use go_order_lab.Orders.Service.{OrderService}
use go_order_lab.Orders.Restore.{restore_stock}
use go_order_lab.Orders.Create.{placed_by, is_takeable}
use go_order_lab.Orders.Compensate.{touch_order}
use go_order_lab.Orders.Life.{is_live, Moves}

pub record Keeps (E : Env) (S : OrderService) (J : Db E → Type 0) : Type 0 where
  -- The tables that the invariant does not look at.
  pub quiet : IgnoresLog E J
  pub products_aside : (d : Db E) (s : E.products.State) → J d → J (record d { products = s })
  pub user_coupons_aside :
      (d : Db E) (s : E.user_coupons.State) → J d → J (record d { user_coupons = s })
  pub order_items_aside :
      (d : Db E) (s : E.order_items.State) → J d → J (record d { order_items = s })
  pub cart_items_aside : (d : Db E) (s : E.cart_items.State) → J d → J (record d { cart_items = s })
  pub payments_aside : (d : Db E) (s : E.payments.State) → J d → J (record d { payments = s })
  -- A new order of an activity, which takes a unit: by a Save of the activity, or by the
  -- conditional UPDATE.
  pub placed :
      (d : Db E) (a : Activity) (order stored : Order) (s : E.activities.State) (t : E.orders.State)
      → order.activity_id ≡ a.id
      → order.status ≡ queued
      → leb_ℤ a.stock (pos 0) ≡ false
      → E.activities.first (has_id activity_columns a.id) d.activities ≡ ok a
      → E.activities.save (record a { stock = wrap64 (a.stock -ℤ pos 1) }) d.activities ≡ ok (tt, s)
      → E.orders.create order d.orders ≡ ok (stored, t)
      → any (placed_by order.user_id order.activity_id) (E.orders.rows d.orders) ≡ false
      → J d
      → J (record d { activities = s; orders = t })
  pub reserved :
      (d : Db E) (j : ℕ) (now : ℤ) (n : ℕ) (order stored : Order) (s : E.activities.State)
      (t : E.orders.State)
      → order.activity_id ≡ j
      → order.status ≡ queued
      → E.activities.update_column
          (is_takeable j now)
          (λ a. record a { stock = a.stock -ℤ pos 1 })
          d.activities
        ≡ ok (n, s)
      → 0 < n
      → E.orders.create order d.orders ≡ ok (stored, t)
      → any (placed_by order.user_id order.activity_id) (E.orders.rows d.orders) ≡ false
      → J d
      → J (record d { activities = s; orders = t })
  -- The order of a cart, which belongs to no activity.
  pub cart :
      (order : Order) (w : World E)
      → order.activity_id ≡ 0
      → order.status ≡ wait_pay
      → J w.db
      → J (create_order E order w).1.db
  -- An open order gives back what it took and is cancelled or closed.
  pub settle :
      (p : Order → Bool) (order : Order) (st : OrderStatus) (w : World E) (s' : E.orders.State)
      → is_open order.status ≡ true
      → is_live st ≡ false
      → Moves order.status st
      → E.orders.first p w.db.orders ≡ ok order
      → (restore_stock E S order w).0 ≡ ok tt
      → E.orders.save (record order { status = st }) (restore_stock E S order w).1.db.orders
        ≡ ok (tt, s')
      → J w.db
      → J (record ((restore_stock E S order w).1.db) { orders = s' })
  -- A move that keeps the unit, a new time of the last write, and the end of an activity.
  pub hold :
      (p : Order → Bool) (order : Order) (st : OrderStatus) (d : Db E) (s' : E.orders.State)
      → is_live order.status ≡ true
      → is_live st ≡ true
      → Moves order.status st
      → E.orders.first p d.orders ≡ ok order
      → E.orders.save (record order { status = st }) d.orders ≡ ok (tt, s')
      → J d
      → J (record d { orders = s' })
  pub touched :
      (d : Db E) (p : Order → Bool) (now : ℤ) (n : ℕ) (s' : E.orders.State)
      → E.orders.update_column p (touch_order now) d.orders ≡ ok (n, s')
      → J d
      → J (record d { orders = s' })
  pub ended_activity :
      (d : Db E) (p : Activity → Bool) (a : Activity) (s' : E.activities.State)
      → E.activities.first p d.activities ≡ ok a
      → E.activities.save (record a { status = ended }) d.activities ≡ ok (tt, s')
      → J d
      → J (record d { activities = s' })
