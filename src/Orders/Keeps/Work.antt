-- ===== src/Orders/Keeps/Work.antt =====
-- What the transaction of a worker keeps, its rounds keep.
use go_order_lab.Prelude.{
  ℕ, ◌≡◌, refl, true, Option, none, some, List, [], ◌∷◌, Result, ok, err, Error, ℤ, arith, ltb_ℤ,
  Text, Result-cases, inl, inr, Bool-cases,
}
use go_order_lab.Env.{Env, Db, World, transaction}
use go_order_lab.Env.Laws.{if-keeps, log-keeps, transaction-keeps, report-keeps}
use go_order_lab.Orders.Service.{OrderService, error_text}
use go_order_lab.Orders.Keeps.{Keeps}
use go_order_lab.Env.Broker.{RabbitOrderMessage}
use go_order_lab.Rabbit.Message.{decode_rabbit_order_message}
use go_order_lab.Rabbit.Queue.{publish_retry, publish_dead_letter}
use go_order_lab.Orders.Worker.{
  is_context_error, goes_on, run_task, next_try, settle_delivery, deliver_message, process_tx,
  process_order_created, worker_round, deliver, handle_rabbit_order_failure, retry_order,
  bury_order,
}
use go_order_lab.Model.{OrderStatus, queued, is_queued, wait_pay}
use go_order_lab.Orders.Life.{is_live, Moves, starts_waiting}
use go_order_lab.Orders.Cancel.{has_order_no}

queued_move : (s : OrderStatus) → is_queued s ≡ true → Moves s wait_pay
queued_move queued e = starts_waiting
queued_move wait_pay e = cc
queued_move OrderStatus.paid e = cc
queued_move OrderStatus.cancelled e = cc
queued_move OrderStatus.closed e = cc
queued_move (OrderStatus.other t) e = cc

module _ (E : Env) (S : OrderService) (J : Db E → Type 0) (K : Keeps E S J) where
  process_tx-keeps :
      (order_no : Text) (w : World E)
      → (process_tx E order_no w).0 ≡ ok tt
      → J w.db
      → J (process_tx E order_no w).1.db
  unfolding process_tx
  process_tx-keeps order_no w done b =
      elim (Result-cases (E.orders.first (has_order_no order_no) w.db.orders)) [
        | inr (e, missing) ↦ absurd (ground arith)
        | inl (order, found) ↦ elim (Bool-cases (is_queued order.status)) [
          | inr moved ↦ ground arith
          | inl waits ↦
              elim (Result-cases (E.orders.save (record order { status = wait_pay }) w.db.orders)) [
                | inr (e, failed) ↦ absurd (ground arith)
                | inl ((u, s'), saved) ↦
                    (let live : is_live order.status ≡ true = ground arith in
                      ground (
                        arith,
                        K.hold (has_order_no order_no) order wait_pay w.db s' live refl
                            (queued_move order.status waits) found saved b,
                      ))
              ]
        ]
      ]

  pub process_order_created-keeps :
      (context_error : Option Error) (worker_id : ℕ) (order_no : Text) (w : World E)
      → J w.db
      → J (process_order_created E context_error worker_id order_no w).1.db
  unfolding process_order_created
  process_order_created-keeps (some e) worker_id order_no w b = b
  process_order_created-keeps none worker_id order_no w b =
      report-keeps E J _ _ (transaction E (process_tx E order_no) w)
        (λ e v. log-keeps E J K.quiet _ _ _ _ _ v) (λ a v. log-keeps E J K.quiet _ _ _ _ _ v)
        (transaction-keeps E J (process_tx E order_no) w b
          (λ u done. process_tx-keeps order_no w done b))

  goes_on-keeps : (m : Result (Unit {0}) × World E) → J m.1.db → J (goes_on E m).1.db
  goes_on-keeps (ok u, w) b = b
  goes_on-keeps (err e, w) b = b

  run_task-keeps :
      (context_error : Option Error) (worker_id : ℕ) (tasks : List Text) (w : World E)
      → J w.db
      → J (run_task E context_error worker_id tasks w).1.db
  unfolding run_task
  run_task-keeps context_error worker_id [] w b = b
  run_task-keeps context_error worker_id (order_no ∷ rest) w b =
      goes_on-keeps
        (process_order_created E context_error worker_id order_no (record w { tasks = rest }))
        (process_order_created-keeps context_error worker_id order_no (record w { tasks = rest }) b)

  -- A worker's round on the channel.
  pub worker_round-keeps :
      (context_error : Option Error) (worker_id : ℕ) (w : World E)
      → J w.db
      → J (worker_round E context_error worker_id w).1.db
  unfolding worker_round
  worker_round-keeps context_error worker_id w b =
      run_task-keeps context_error worker_id w.tasks w b

  module _ (queue : Text) where
    retry_order-keeps :
        (msg : RabbitOrderMessage) (e : Error) (w : World E)
        → J w.db
        → J (retry_order E S queue msg e w).1.db
    unfolding retry_order
    retry_order-keeps msg e w b =
        elim (Result-cases (publish_retry E.broker queue (next_try E S queue msg) w.broker).0) [
          | inl (u, sent) ↦ rw (sent, retry_order) (log-keeps E J K.quiet _ _ _ _ _ _ b)
          | inr (x, stuck) ↦ rw (stuck, retry_order) (log-keeps E J K.quiet _ _ _ _ _ _ b)
        ]

    bury_order-keeps :
        (now : ℤ) (msg : RabbitOrderMessage) (e : Error) (w : World E)
        → J w.db
        → J (bury_order E S queue now msg e w).1.db
    unfolding bury_order
    bury_order-keeps now msg e w b =
        elim (Result-cases (publish_dead_letter E.broker queue now msg (error_text e) w.broker).0) [
          | inl (u, sent) ↦ rw (sent, bury_order) (log-keeps E J K.quiet _ _ _ _ _ _ b)
          | inr (x, stuck) ↦ rw (stuck, bury_order) (log-keeps E J K.quiet _ _ _ _ _ _ b)
        ]

    handle_failure-keeps :
        (now : ℤ) (msg : RabbitOrderMessage) (e : Error) (w : World E)
        → J w.db
        → J (handle_rabbit_order_failure E S queue now msg e w).1.db
    unfolding handle_rabbit_order_failure
    handle_failure-keeps now msg e w b =
        if-keeps E J (ltb_ℤ msg.retry S.rabbit_max_retries) (retry_order E S queue msg e w)
          (bury_order E S queue now msg e w) (retry_order-keeps msg e w b)
          (bury_order-keeps now msg e w b)

    settle_delivery-keeps :
        (now : ℤ) (msg : RabbitOrderMessage) (m : Result (Unit {0}) × World E)
        → J m.1.db
        → J (settle_delivery E S queue now msg m).2.db
    unfolding settle_delivery
    settle_delivery-keeps now msg (ok u, w) b = b
    settle_delivery-keeps now msg (err e, w) b = elim (Bool-cases (is_context_error e)) [
      | inl stop ↦ rw (stop, settle_delivery) b
      | inr other ↦ rw (other, settle_delivery) (handle_failure-keeps now msg e w b)
    ]

    deliver_message-keeps :
        (now : ℤ) (context_error : Option Error) (worker_id : ℕ) (r : Result RabbitOrderMessage)
        (w : World E)
        → J w.db
        → J (deliver_message E S queue now context_error worker_id r w).2.db
    unfolding deliver_message
    deliver_message-keeps now context_error worker_id (ok msg) w b =
        settle_delivery-keeps now msg
          (process_order_created E context_error worker_id msg.order_no w)
          (process_order_created-keeps context_error worker_id msg.order_no w b)
    deliver_message-keeps now context_error worker_id (err e) w b =
        log-keeps E J K.quiet _ _ _ _ _ w b

    -- A worker's round on a delivery, whatever its body and however it is settled.
    pub deliver-keeps :
        (now : ℤ) (context_error : Option Error) (worker_id : ℕ) (body : Text) (w : World E)
        → J w.db
        → J (deliver E S queue now context_error worker_id body w).2.db
    unfolding deliver
    deliver-keeps now context_error worker_id body w b =
        deliver_message-keeps now context_error worker_id
          (decode_rabbit_order_message E.broker body) w b
