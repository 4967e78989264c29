-- ===== src/Orders/Balance.antt =====
-- The account of one activity: what is in stock, and what the orders that stand have taken. It is
-- the specification of the stock that the operations of internal/service/order.go implement.
pub mod Restore
pub mod Settle
pub mod Place
pub mod Run
use go_order_lab.Prelude.{ℕ, ◌≡◌, Bool, true, false, ℤ, pos, ◌+ℤ◌, ◌≤ℤ◌, ◌==◌, if◌then◌else◌, arith}
use go_order_lab.Store.Effects.{at_id, sum_by-nonneg}
use go_order_lab.Store.Sums.{sum_by}
use go_order_lab.Model.{Activity, activity_columns, Order, OrderStatus, queued, wait_pay, paid}
use go_order_lab.Env.{Env, Db}
use go_order_lab.Orders.Life.{is_live}

module _ (k : ℕ) where
  abbrev pub stock_part : Activity → ℤ
  stock_part = at_id activity_columns k (λ a. a.stock)

  abbrev pub taken_part : Order → ℤ
  taken_part o = if o.activity_id == k then (if is_live o.status then pos 1 else pos 0) else pos 0

  pub taken_part_nonneg : (o : Order) → pos 0 ≤ℤ taken_part o
  taken_part_nonneg o = ground arith

module _ (E : Env) (k : ℕ) where
  abbrev pub stock_total : Db E → ℤ
  stock_total d = sum_by (stock_part k) (E.activities.rows d.activities)

  abbrev pub taken_total : Db E → ℤ
  taken_total d = sum_by (taken_part k) (E.orders.rows d.orders)

  pub taken_total_nonneg : (d : Db E) → pos 0 ≤ℤ taken_total d
  taken_total_nonneg d = sum_by-nonneg (taken_part k) (taken_part_nonneg k) (E.orders.rows d.orders)

-- The stock of activity `k` is not negative, and with the units taken it makes up the supply.
pub record Balanced (E : Env) (k : ℕ) (supply : ℤ) (d : Db E) : Type 0 where
  pub in_stock : pos 0 ≤ℤ stock_total E k d
  pub accounted : stock_total E k d +ℤ taken_total E k d ≡ supply
