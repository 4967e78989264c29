-- ===== src/Orders/Compensate.antt =====
-- `Compensate` of internal/service/order.go: stale queued orders are published again, unpaid ones
-- closed, activities past their end marked as ended.
use go_order_lab.Prelude.{
  ℕ, suc, Bool, true, false, not, ◌&&◌, List, [], ◌∷◌, ◌++◌, ok, err, Action, query, pure, ◌>>=◌,
  ◌>>◌, ℤ, leb_ℤ, Text, codes, text_eq, decimal, ltb, if◌then◌else◌, execute,
}
use go_order_lab.Store.Rows.{has_id}
use go_order_lab.Model.{
  Order, Activity, activity_columns, is_queued, is_wait_pay, is_published, closed, ended,
}
use go_order_lab.Env.{Env, World, transaction, save_order, save_activity, put_orders, log}
use go_order_lab.Orders.Service.{
  OrderService, error_text, success, failed, seconds, before, or_zero,
}
use go_order_lab.Orders.Publish.{publish_order_task}
use go_order_lab.Orders.Restore.{restore_stock}
use go_order_lab.Orders.Cancel.{has_order_no}

pub record CompensateInput : Type 0 where
  pub queued_timeout_seconds : ℤ
  pub pay_timeout_seconds : ℤ

pub record CompensationResult : Type 0 where
  pub requeued_orders : ℕ
  pub closed_orders : ℕ
  pub ended_activities : ℕ
  pub failed_count : ℕ

abbrev pub nothing_done : CompensationResult
nothing_done = record {
  requeued_orders = 0;
  closed_orders = 0;
  ended_activities = 0;
  failed_count = 0;
}

-- `order_no = ? AND status = 'QUEUED'`
abbrev pub is_requeueable : Text → Order → Bool
is_requeueable order_no o = text_eq o.order_no order_no && is_queued o.status

-- `UPDATE … SET updated_at = ?`
abbrev pub touch_order : ℤ → Order → Order
touch_order now o = record o { base = record (o.base) { updated_at = now } }

abbrev pub is_stale : CompensateInput → ℤ → Order → Bool
is_stale input now o =
    is_queued o.status
    && leb_ℤ o.updated_at (before now (seconds (or_zero input.queued_timeout_seconds)))

abbrev pub is_unpaid : CompensateInput → ℤ → Order → Bool
is_unpaid input now o =
    is_wait_pay o.status
    && leb_ℤ o.created_at (before now (seconds (or_zero input.pay_timeout_seconds)))

abbrev pub is_past : ℤ → Activity → Bool
is_past now a = is_published a.status && leb_ℤ a.end_at now

module _ (E : Env) (S : OrderService) where
  unfoldable pub requeue_tx : ℤ → Text → Action (World E) Bool
  requeue_tx now order_no = do
    affected ←
        execute
          (λ w. E.orders.update_column (is_requeueable order_no) (touch_order now) w.db.orders)
          (put_orders E)
    pure (ltb 0 affected)

  unfoldable pub close_tx : Text → Action (World E) Bool
  unfolding restore_stock
  close_tx order_no = do
    order ← query (λ w. E.orders.first (has_order_no order_no) w.db.orders)
    if not (is_wait_pay order.status)
        then pure false
        else restore_stock E S order >> save_order E (record order { status = closed }) >> pure true

  unfoldable pub end_tx : ℕ → Action (World E) Bool
  end_tx activity_id = do
    activity ← query (λ w. E.activities.first (has_id activity_columns activity_id) w.db.activities)
    if not (is_published activity.status)
        then pure false
        else save_activity E (record activity { status = ended }) >> pure true

  -- The rounds of the three loops, on the result so far.
  unfoldable pub requeue_one :
      ℤ → Order → CompensationResult → World E → CompensationResult × World E
  unfolding requeue_tx publish_order_task log error_text
  requeue_one now item result w =
      let (r, w') = transaction E (requeue_tx now item.order_no) w in
      elim r [
        | err e ↦ (
          record result { failed_count = suc result.failed_count },
          log E (codes "compensate_requeue_failed") item.order_no item.user_id failed (error_text e)
              w',
        )
        | ok requeued ↦
            if requeued
            then (
              record result { requeued_orders = suc result.requeued_orders },
              log E (codes "compensate_requeue_order") item.order_no item.user_id success
                  (codes "stale queued order was published again")
                  (publish_order_task E S item.order_no w'),
            )
            else (result, w')
      ]

  unfoldable pub close_one : Order → CompensationResult → World E → CompensationResult × World E
  unfolding close_tx log error_text
  close_one item result w =
      let (r, w') = transaction E (close_tx item.order_no) w in
      elim r [
        | err e ↦ (
          record result { failed_count = suc result.failed_count },
          log E (codes "compensate_close_failed") item.order_no item.user_id failed (error_text e)
              w',
        )
        | ok done ↦
            if done
            then (
              record result { closed_orders = suc result.closed_orders },
              log E (codes "compensate_close_order") item.order_no item.user_id success
                  (codes "timeout wait-pay order closed and stock returned") w',
            )
            else (result, w')
      ]

  unfoldable pub end_one : Activity → CompensationResult → World E → CompensationResult × World E
  unfolding end_tx log error_text
  end_one item result w =
      let (r, w') = transaction E (end_tx item.id) w in
      elim r [
        | err e ↦ (
          record result { failed_count = suc result.failed_count },
          log E (codes "compensate_end_activity_failed") [] 0 failed
              (codes "activity=" ++ decimal item.id ++ codes " reason=" ++ error_text e) w',
        )
        | ok done ↦
            if done
            then (
              record result { ended_activities = suc result.ended_activities },
              log E (codes "compensate_end_activity") [] 0 success
                  (codes "activity=" ++ decimal item.id ++ codes " marked ENDED") w',
            )
            else (result, w')
      ]

  -- `for _, item := range items` over a round, on the result so far.
  unfoldable pub rounds :
      {A : Type 0}
      → (A → CompensationResult → World E → CompensationResult × World E)
      → List A
      → CompensationResult
      → World E
      → CompensationResult × World E
  rounds round [] result w = (result, w)
  rounds round (x ∷ xs) result w =
      let (result', w') = round x result w in rounds round xs result' w'

  unfoldable pub requeue_stale :
      CompensateInput → ℤ → CompensationResult → Action (World E) CompensationResult
  unfolding requeue_one rounds
  requeue_stale input now result w = elim (E.orders.find (is_stale input now) w.db.orders) [
    | err e ↦ (err e, w)
    | ok items ↦ (let (result', w') = rounds (requeue_one now) items result w in (ok result', w'))
  ]

  unfoldable pub close_unpaid :
      CompensateInput → ℤ → CompensationResult → Action (World E) CompensationResult
  unfolding close_one rounds
  close_unpaid input now result w = elim (E.orders.find (is_unpaid input now) w.db.orders) [
    | err e ↦ (err e, w)
    | ok items ↦ (let (result', w') = rounds close_one items result w in (ok result', w'))
  ]

  unfoldable pub end_past : ℤ → CompensationResult → Action (World E) CompensationResult
  unfolding end_one rounds
  end_past now result w = elim (E.activities.find (is_past now) w.db.activities) [
    | err e ↦ (err e, w)
    | ok items ↦ (let (result', w') = rounds end_one items result w in (ok result', w'))
  ]

  unfoldable pub compensate : CompensateInput → ℤ → Action (World E) CompensationResult
  unfolding requeue_stale close_unpaid end_past
  compensate input now = do
    requeued ← requeue_stale input now nothing_done
    done ← close_unpaid input now requeued
    end_past now done
