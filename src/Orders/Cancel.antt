-- ===== src/Orders/Cancel.antt =====
-- `CancelOrder` and `ExpireOrders` of internal/service/order.go.
use go_order_lab.Prelude.{
  ℕ, suc, Bool, true, not, ◌&&◌, List, [], ◌∷◌, ok, err, order_not_found, illegal_transition,
  Action, query, query_or, pure, raise_if, ◌>>=◌, ◌>>◌, ℤ, leb_ℤ, Text, codes, text_eq, ◌==◌,
  if◌then◌else◌,
}
use go_order_lab.Model.{Order, OrderStatus, cancelled, closed, is_open}
use go_order_lab.Env.{Env, World, transaction, save_order, log, report}
use go_order_lab.Orders.Service.{
  OrderService, error_text, success, failed, seconds, before, or_zero,
}
use go_order_lab.Orders.Restore.{restore_stock}

pub record CancelOrderResult : Type 0 where
  pub order_no : Text
  pub status : OrderStatus
  pub returned_stock : Bool

-- `order_no = ?` and `user_id = ? AND order_no = ?`
abbrev pub has_order_no : Text → Order → Bool
has_order_no order_no o = text_eq o.order_no order_no

abbrev pub has_owner : ℕ → Text → Order → Bool
has_owner user_id order_no o = o.user_id == user_id && text_eq o.order_no order_no

-- `status IN ? AND created_at <= ?`, with the cutoff that the input gives.
abbrev pub is_expirable : ℤ → ℤ → Order → Bool
is_expirable timeout_seconds now o =
    is_open o.status && leb_ℤ o.created_at (before now (seconds (or_zero timeout_seconds)))

module _ (E : Env) (S : OrderService) where
  -- The body of the transaction of `CancelOrder`.
  unfoldable pub cancel_tx : ℕ → Text → Action (World E) CancelOrderResult
  unfolding restore_stock
  cancel_tx user_id order_no = do
    order ← query_or order_not_found (λ w. E.orders.first (has_owner user_id order_no) w.db.orders)
    raise_if (not (is_open order.status)) illegal_transition
    restore_stock E S order
    save_order E (record order { status = cancelled })
    pure (record { order_no = order_no; status = cancelled; returned_stock = true })

  unfoldable pub cancel_order : ℕ → Text → Action (World E) CancelOrderResult
  unfolding cancel_tx log error_text
  cancel_order user_id order_no w =
      report (λ e. log E (codes "cancel_order_failed") order_no user_id failed (error_text e))
        (λ _.
          log E (codes "cancel_order") order_no user_id success
            (codes "order cancelled and stock returned"))
        (transaction E (cancel_tx user_id order_no) w)

  -- Closes the order, if it is still open; this is the body of the transaction of `ExpireOrders`.
  unfoldable pub expire_tx : Text → Action (World E) (Unit {0})
  unfolding restore_stock
  expire_tx order_no = do
    order ← query (λ w. E.orders.first (has_order_no order_no) w.db.orders)
    if not (is_open order.status)
        then pure tt
        else restore_stock E S order >> save_order E (record order { status = closed })

  -- One round of the loop of `ExpireOrders`, with the number of orders expired so far.
  unfoldable pub expire_one : Order → ℕ → World E → ℕ × World E
  unfolding expire_tx log error_text
  expire_one item expired w =
      let (r, w') = transaction E (expire_tx item.order_no) w in
      elim r [
        | err e ↦ (
          expired,
          log E (codes "expire_order_failed") item.order_no item.user_id failed (error_text e) w',
        )
        | ok _ ↦ (
          suc expired,
          log E (codes "expire_order") item.order_no item.user_id success
              (codes "order timeout closed and stock returned") w',
        )
      ]

  unfoldable pub expire_loop : List Order → ℕ → World E → ℕ × World E
  unfolding expire_one
  expire_loop [] expired w = (expired, w)
  expire_loop (item ∷ items) expired w =
      let (expired', w') = expire_one item expired w in expire_loop items expired' w'

  -- `timeout_seconds` is the input, `now` is `time.Now()`; the result is ExpiredCount.
  unfoldable pub expire_orders : ℤ → ℤ → Action (World E) ℕ
  unfolding expire_loop
  expire_orders timeout_seconds now w =
      elim (E.orders.find (is_expirable timeout_seconds now) w.db.orders) [
        | err e ↦ (err e, w)
        | ok orders ↦ (let (expired, w') = expire_loop orders 0 w in (ok expired, w'))
      ]
