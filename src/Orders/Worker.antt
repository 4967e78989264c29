-- ===== src/Orders/Worker.antt =====
-- The workers of internal/service/order.go: `processOrderCreated`, the round of `worker` on the
-- channel, the round of `startRabbitWorkers` on a delivery, and `handleRabbitOrderFailure`.
pub mod Delivery
use go_order_lab.Prelude.{
  ℕ, Bool, true, false, not, ◌||◌, Option, none, some, List, [], ◌∷◌, ◌++◌, Result, ok, err, Error,
  canceled, deadline_exceeded, Action, query, pure, ◌>>=◌, ◌>>◌, ℤ, pos, ◌+ℤ◌, wrap64, ltb_ℤ, Text,
  codes, text_eq, decimal, if◌then◌else◌, execute,
}
use go_order_lab.Model.{Order, wait_pay, is_queued}
use go_order_lab.Env.{Env, World, transaction, save_order, log, report}
use go_order_lab.Env.Broker.{RabbitOrderMessage}
use go_order_lab.Rabbit.Message.{decode_rabbit_order_message}
use go_order_lab.Rabbit.Queue.{publish_retry, publish_dead_letter}
use go_order_lab.Orders.Service.{OrderService, error_text, print_int, success, failed}
use go_order_lab.Orders.Cancel.{has_order_no}

-- `errors.Is(err, context.Canceled) || errors.Is(err, context.DeadlineExceeded)`
abbrev pub is_context_error : Error → Bool
is_context_error canceled = true
is_context_error deadline_exceeded = true
is_context_error _ = false

-- How a delivery is settled: `Ack(false)` or `Nack(false, requeue)`.
pub data Settlement : Type 0 where
  ack : Settlement
  nack : Bool → Settlement

module _ (E : Env) where
  unfoldable pub process_tx : Text → Action (World E) (Unit {0})
  process_tx order_no = do
    order ← query (λ w. E.orders.first (has_order_no order_no) w.db.orders)
    if not (is_queued order.status)
        then pure tt
        else save_order E (record order { status = wait_pay })

  -- `context_error` is the context's error, if it ends within the 120 ms.
  unfoldable pub process_order_created : Option Error → ℕ → Text → Action (World E) (Unit {0})
  unfolding process_tx log error_text
  process_order_created context_error worker_id order_no w = elim context_error [
    | some e ↦ (err e, w)
    | none ↦
        report (λ e. log E (codes "order_created_async") order_no 0 failed (error_text e))
          (λ _.
            log E (codes "order_created_async") order_no 0 success
              (codes "worker=" ++ decimal worker_id ++ codes " moved order to WAIT_PAY"))
          (transaction E (process_tx order_no) w)
  ]

  -- A worker goes on unless its context has ended.
  abbrev pub goes_on : Result (Unit {0}) × World E → Bool × World E
  goes_on (ok _, w) = (true, w)
  goes_on (err e, w) = (not (is_context_error e), w)

  unfoldable pub run_task : Option Error → ℕ → List Text → World E → Bool × World E
  unfolding process_order_created
  run_task context_error worker_id [] w = (true, w)
  run_task context_error worker_id (order_no ∷ rest) w =
      goes_on (process_order_created context_error worker_id order_no (record w { tasks = rest }))

  -- A round of `worker`: it takes the oldest task, if there is one.
  unfoldable pub worker_round : Option Error → ℕ → World E → Bool × World E
  unfolding run_task
  worker_round context_error worker_id w = run_task context_error worker_id w.tasks w

  module _ (S : OrderService) (queue : Text) where
    unfoldable pub retry_reason : ℤ → Error → Text
    retry_reason retry e = codes "retry=" ++ print_int retry ++ codes " reason=" ++ error_text e

    abbrev pub next_try : RabbitOrderMessage → RabbitOrderMessage
    next_try msg = record msg { retry = wrap64 (msg.retry +ℤ pos 1) }

    unfoldable pub retry_order : RabbitOrderMessage → Error → World E → Bool × World E
    unfolding publish_retry log error_text print_int retry_reason
    retry_order msg process_error w =
        let (r, b) = publish_retry E.broker queue (next_try msg) w.broker in
        elim r [
          | err e ↦ (
            false,
            log E (codes "order_task_retry_failed") msg.order_no 0 failed (error_text e)
                (record w { broker = b }),
          )
          | ok _ ↦ (
            true,
            log E (codes "order_task_retry") msg.order_no 0 success
                (retry_reason (next_try msg).retry process_error) (record w { broker = b }),
          )
        ]

    unfoldable pub bury_order : ℤ → RabbitOrderMessage → Error → World E → Bool × World E
    unfolding publish_dead_letter log error_text print_int retry_reason
    bury_order now msg process_error w =
        let (r, b) =
          publish_dead_letter E.broker queue now msg (error_text process_error) w.broker in
        elim r [
          | err e ↦ (
            false,
            log E (codes "order_task_dead_letter_failed") msg.order_no 0 failed (error_text e)
                (record w { broker = b }),
          )
          | ok _ ↦ (
            true,
            log E (codes "order_task_dead_letter") msg.order_no 0 failed
                (retry_reason msg.retry process_error) (record w { broker = b }),
          )
        ]

    -- Whether the failure is dealt with, so that the delivery may be acknowledged.
    unfoldable pub handle_rabbit_order_failure :
        ℤ → RabbitOrderMessage → Error → World E → Bool × World E
    unfolding retry_order bury_order
    handle_rabbit_order_failure now msg process_error w =
        if ltb_ℤ msg.retry S.rabbit_max_retries
        then retry_order msg process_error w
        else bury_order now msg process_error w

    abbrev pub settle_failure : Bool × World E → Settlement × Bool × World E
    settle_failure (handled, w) = (if handled then ack else nack true, true, w)

    -- What follows `processOrderCreated`.
    unfoldable pub settle_delivery :
        ℤ → RabbitOrderMessage → Result (Unit {0}) × World E → Settlement × Bool × World E
    unfolding handle_rabbit_order_failure
    settle_delivery now msg (ok _, w) = (ack, true, w)
    settle_delivery now msg (err e, w) =
        if is_context_error e
        then (nack true, false, w)
        else settle_failure (handle_rabbit_order_failure now msg e w)

    unfoldable pub deliver_message :
        ℤ → Option Error → ℕ → Result RabbitOrderMessage → World E → Settlement × Bool × World E
    unfolding process_order_created settle_delivery log error_text
    deliver_message now context_error worker_id (ok msg) w =
        settle_delivery now msg (process_order_created context_error worker_id msg.order_no w)
    deliver_message now context_error worker_id (err e) w =
        (nack false, true, log E (codes "order_task_decode_failed") [] 0 failed (error_text e) w)

    -- The round of a worker on one delivery: how it is settled, and whether the worker goes on.
    unfoldable pub deliver : ℤ → Option Error → ℕ → Text → World E → Settlement × Bool × World E
    unfolding decode_rabbit_order_message deliver_message
    deliver now context_error worker_id body =
        deliver_message now context_error worker_id (decode_rabbit_order_message E.broker body)
