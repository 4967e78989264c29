-- ===== src/Orders/Publish/Frame.antt =====
-- Publishing a task changes no table but the log.
use go_order_lab.Prelude.{Text, length, ltb, Bool-cases, Option-cases, Result-cases, inl, inr}
use go_order_lab.Env.{Env, Db, World}
use go_order_lab.Env.Laws.{IgnoresLog, log-keeps}
use go_order_lab.Rabbit.Queue.{publish}
use go_order_lab.Orders.Service.{OrderService}
use go_order_lab.Orders.Publish.{send_task, publish_order_task, task_capacity}

module _ (E : Env) (J : Db E → Type 0) (quiet : IgnoresLog E J) where
  send_task-keeps : (order_no : Text) (w : World E) → J w.db → J (send_task E order_no w).db
  unfolding send_task
  send_task-keeps order_no w h = elim (Bool-cases (ltb (length w.tasks) task_capacity)) [
    | inl e ↦ rw (e, send_task) h
    | inr e ↦ rw (e, send_task) (log-keeps E J quiet _ _ _ _ _ w h)
  ]

  pub publish_order_task-keeps :
      (S : OrderService) (order_no : Text) (w : World E)
      → J w.db
      → J (publish_order_task E S order_no w).db
  unfolding publish_order_task
  publish_order_task-keeps S order_no w h = elim (Option-cases S.rabbit) [
    | inl e ↦ rw (e, publish_order_task) (send_task-keeps order_no w h)
    | inr (queue, e) ↦ elim (Result-cases (publish E.broker queue order_no w.broker).0) [
      | inl (u, sent) ↦ rw (e, publish_order_task) (rw sent (log-keeps E J quiet _ _ _ _ _ _ h))
      | inr (x, failed) ↦
          rw (e, publish_order_task)
            (rw failed (send_task-keeps order_no _ (log-keeps E J quiet _ _ _ _ _ _ h)))
    ]
  ]
