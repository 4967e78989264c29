-- ===== src/Orders/Publish.antt =====
-- `publishOrderTask` of internal/service/order.go: RabbitMQ first, the channel of the process where
-- there is no queue or the queue refuses.
pub mod Frame
use go_order_lab.Prelude.{
  ℕ, ◌<◌, Bool, Option, none, some, List, [], ◌∷◌, ◌++◌, Result, ok, err, Error, deadline_exceeded,
  Text, codes, length, ltb, if◌then◌else◌,
}
use go_order_lab.Env.{Env, World, log}
use go_order_lab.Rabbit.Queue.{publish}
use go_order_lab.Orders.Service.{OrderService, error_text, success, failed}

-- `make(chan OrderTask, 128)`
abbrev pub task_capacity : ℕ
task_capacity = 128

module _ (E : Env) where
  -- The `select` on the channel. Nobody reads the channel while the operation waits: on a full
  -- channel the two seconds pass.
  pub send_task : Text → World E → World E
  unfolding log error_text
  send_task order_no w =
      if ltb (length w.tasks) task_capacity
      then record w { tasks = w.tasks ++ order_no ∷ [] }
      else log E (codes "order_task_publish_failed") order_no 0 failed
          (error_text deadline_exceeded) w

  unfoldable pub publish_order_task : OrderService → Text → World E → World E
  unfolding log error_text publish send_task
  publish_order_task S order_no w = elim S.rabbit [
    | none ↦ send_task order_no w
    | some queue ↦
        (let (r, b) = publish E.broker queue order_no w.broker in
          let w' = record w { broker = b } in
          elim r [
            | ok _ ↦
                log E (codes "order_task_published") order_no 0 success
                  (codes "published to RabbitMQ") w'
            | err e ↦
                send_task order_no
                  (log E (codes "order_task_publish_fallback") order_no 0 failed (error_text e) w')
          ])
  ]
