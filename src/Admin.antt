-- ===== src/Admin.antt =====
-- `AdminService` of internal/service/admin.go.
pub mod Report
use go_order_lab.Prelude.{
  ℕ, suc, Bool, true, false, ◌&&◌, ◌||◌, Option, none, some, List, reverse, Result, ok, err, Error,
  Action, query, pure, ◌>>=◌, ◌>>◌, ℤ, pos, pos_part, ltb_ℤ, leb_ℤ, Text, codes, text_eq, ◌==◌, ltb,
  if◌then◌else◌,
}
use go_order_lab.Model.{
  User, Product, Activity, Order, OrderStatus, queued, wait_pay, paid, cancelled, closed,
  OperationLog,
}
use go_order_lab.Env.{Env, World}
use go_order_lab.Orders.Service.{failed}
use go_order_lab.Orders.Queries.{take}

pub record AdminOverview : Type 0 where
  pub users : ℕ
  pub products : ℕ
  pub activities : ℕ
  pub total_orders : ℕ
  pub queued_orders : ℕ
  pub wait_pay_orders : ℕ
  pub paid_orders : ℕ
  pub cancelled_orders : ℕ
  pub closed_orders : ℕ
  pub paid_gmv : ℤ
  pub product_stock : ℤ
  pub activity_stock : ℤ
  pub failed_logs : ℕ
  pub recent_failures : List OperationLog

-- An empty status, like 0 for a user or an activity, asks for any.
pub record AdminOrderQuery : Type 0 where
  pub status : Option OrderStatus
  pub user_id : ℕ
  pub activity_id : ℕ
  pub limit : ℤ

pub record AdminOrderList : Type 0 where
  pub total : ℕ
  pub items : List Order

abbrev pub status_eq : OrderStatus → OrderStatus → Bool
status_eq OrderStatus.queued OrderStatus.queued = true
status_eq OrderStatus.wait_pay OrderStatus.wait_pay = true
status_eq OrderStatus.paid OrderStatus.paid = true
status_eq OrderStatus.cancelled OrderStatus.cancelled = true
status_eq OrderStatus.closed OrderStatus.closed = true
status_eq (OrderStatus.other s) (OrderStatus.other t) = text_eq s t
status_eq _ _ = false

abbrev pub has_status : OrderStatus → Order → Bool
has_status s o = status_eq o.status s

abbrev pub is_failed : OperationLog → Bool
is_failed l = text_eq l.result failed

-- The page size: 20, where the one asked for is out of range.
unfoldable pub page_limit : ℤ → ℕ
page_limit n = if leb_ℤ n (pos 0) || ltb_ℤ (pos 100) n then 20 else pos_part n

-- The conditions that the query adds up.
unfoldable pub matches : AdminOrderQuery → Order → Bool
matches input o =
    (elim input.status [ none ↦ true | some s ↦ has_status s o ])
    && (if ltb 0 input.user_id then o.user_id == input.user_id else true)
    && (if ltb 0 input.activity_id then o.activity_id == input.activity_id else true)

module _ (E : Env) where
  abbrev pub count_orders_by_status : OrderStatus → Action (World E) ℕ
  count_orders_by_status s = query (λ w. E.orders.count_where (has_status s) w.db.orders)

  unfoldable pub overview : Action (World E) AdminOverview
  overview = do
    users ← query (λ w. E.users.count_where (λ _. true) w.db.users)
    products ← query (λ w. E.products.count_where (λ _. true) w.db.products)
    activities ← query (λ w. E.activities.count_where (λ _. true) w.db.activities)
    total_orders ← query (λ w. E.orders.count_where (λ _. true) w.db.orders)
    queued_orders ← count_orders_by_status queued
    wait_pay_orders ← count_orders_by_status wait_pay
    paid_orders ← count_orders_by_status paid
    cancelled_orders ← count_orders_by_status cancelled
    closed_orders ← count_orders_by_status closed
    paid_gmv ← query (λ w. E.orders.sum_where (has_status paid) (λ o. o.amount) w.db.orders)
    product_stock ← query (λ w. E.products.sum_where (λ _. true) (λ p. p.stock) w.db.products)
    activity_stock ← query (λ w. E.activities.sum_where (λ _. true) (λ a. a.stock) w.db.activities)
    failed_logs ← query (λ w. E.operation_logs.count_where is_failed w.db.operation_logs)
    failures ← query (λ w. E.operation_logs.find is_failed w.db.operation_logs)
    pure (record {
      users = users;
      products = products;
      activities = activities;
      total_orders = total_orders;
      queued_orders = queued_orders;
      wait_pay_orders = wait_pay_orders;
      paid_orders = paid_orders;
      cancelled_orders = cancelled_orders;
      closed_orders = closed_orders;
      paid_gmv = paid_gmv;
      product_stock = product_stock;
      activity_stock = activity_stock;
      failed_logs = failed_logs;
      recent_failures = take 5 (reverse failures);
    })

  unfoldable pub list_orders : AdminOrderQuery → Action (World E) AdminOrderList
  unfolding page_limit matches
  list_orders input = do
    total ← query (λ w. E.orders.count_where (matches input) w.db.orders)
    orders ← query (λ w. E.orders.find (matches input) w.db.orders)
    pure (record { total = total; items = take (page_limit input.limit) (reverse orders) })
