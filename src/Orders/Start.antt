-- ===== src/Orders/Start.antt =====
-- How the order service of internal/service/order.go is built and its background work started, and a
-- round of its compensation worker.
use go_order_lab.Prelude.{
  Bool, not, Option, none, some, [], ◌++◌, Result, ok, err, Error, ℤ, pos, leb_ℤ, Text, codes,
  decimal, if◌then◌else◌,
}
use go_order_lab.Env.{Env, World, log}
use go_order_lab.Orders.Service.{OrderService, error_text, print_int, success, failed, or_zero}
use go_order_lab.Orders.Compensate.{CompensateInput, CompensationResult, compensate}

-- A `nil` cache is none.
abbrev pub new_order_service : Bool → Option Text → OrderService
new_order_service redis_stock rabbit = record {
  redis_stock = redis_stock;
  rabbit = rabbit;
  rabbit_max_retries = pos 3;
}

abbrev pub set_rabbit_max_retries : ℤ → OrderService → OrderService
set_rabbit_max_retries n S = record S { rabbit_max_retries = or_zero n }

pub record CompensationWorkerConfig : Type 0 where
  pub enabled : Bool
  pub interval_seconds : ℤ
  pub queued_timeout_seconds : ℤ
  pub pay_timeout_seconds : ℤ

-- A worker is started at least, and an interval is positive.
abbrev pub worker_count : ℤ → ℤ
worker_count n = if leb_ℤ n (pos 0) then pos 1 else n

unfoldable pub settled_config : CompensationWorkerConfig → CompensationWorkerConfig
settled_config cfg = record cfg {
  interval_seconds = if leb_ℤ cfg.interval_seconds (pos 0) then pos 60 else cfg.interval_seconds;
  queued_timeout_seconds = or_zero cfg.queued_timeout_seconds;
  pay_timeout_seconds = or_zero cfg.pay_timeout_seconds;
}

abbrev pub compensate_input : CompensationWorkerConfig → CompensateInput
compensate_input cfg = record {
  queued_timeout_seconds = cfg.queued_timeout_seconds;
  pay_timeout_seconds = cfg.pay_timeout_seconds;
}

-- The workers that a start leaves: on the deliveries of the queue, or on the channel.
pub data Workers : Type 0 where
  on_deliveries on_channel : ℤ → Workers

module _ (E : Env) where
  -- `consume_error` is the error of `Consume`.
  unfoldable pub start_workers_context :
      OrderService → Option Error → ℤ → World E → Workers × World E
  unfolding log error_text print_int
  start_workers_context S consume_error n w = elim S.rabbit [
    | none ↦ (on_channel (worker_count n), w)
    | some queue ↦ elim consume_error [
      | none ↦ (
        on_deliveries (worker_count n),
        log E (codes "rabbitmq_workers_started") [] 0 success
            (codes "workers=" ++ print_int (worker_count n)) w,
      )
      | some e ↦ (
        on_channel (worker_count n),
        log E (codes "rabbitmq_consume_fallback") [] 0 failed (error_text e) w,
      )
    ]
  ]

  abbrev pub started_text : CompensationWorkerConfig → Text
  started_text cfg =
      codes "interval="
      ++ (print_int cfg.interval_seconds
          ++ (codes "s queued_timeout="
              ++ (print_int cfg.queued_timeout_seconds
                  ++ (codes "s pay_timeout=" ++ (print_int cfg.pay_timeout_seconds ++ codes "s")))))

  -- The settings of the worker that is started, if one is.
  unfoldable pub start_compensation_worker_context :
      CompensationWorkerConfig → World E → Option CompensationWorkerConfig × World E
  unfolding settled_config log print_int
  start_compensation_worker_context cfg w = if not cfg.enabled then (none, w) else (
    some (settled_config cfg),
    log E (codes "compensation_worker_started") [] 0 success (started_text (settled_config cfg)) w,
  )

  abbrev pub result_text : CompensationResult → Text
  result_text r =
      codes "requeued="
      ++ (decimal r.requeued_orders
          ++ (codes " closed="
              ++ (decimal r.closed_orders
                  ++ (codes " ended="
                      ++ (decimal r.ended_activities
                          ++ (codes " failed=" ++ decimal r.failed_count))))))

  abbrev pub log_compensation : Result CompensationResult → World E → World E
  log_compensation (ok r) = log E (codes "compensation_worker") [] 0 success (result_text r)
  log_compensation (err e) = log E (codes "compensation_worker") [] 0 failed (error_text e)

  -- What a tick of the worker does.
  unfoldable pub compensation_round :
      OrderService → CompensationWorkerConfig → ℤ → World E → World E
  unfolding log error_text
  compensation_round S cfg now w =
      let (r, w') = compensate E S (compensate_input cfg) now w in log_compensation r w'

  -- What the end of its context does.
  unfoldable pub stop_compensation_worker : Error → World E → World E
  unfolding log error_text
  stop_compensation_worker e =
      log E (codes "compensation_worker_stopped") [] 0 success (error_text e)
