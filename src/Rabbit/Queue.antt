-- ===== src/Rabbit/Queue.antt =====
-- `RabbitQueue` of internal/service/rabbitmq.go: the two queues it publishes on.
use go_order_lab.Prelude.{◌++◌, ok, err, Action, ℤ, pos, Text, codes}
use go_order_lab.Env.Broker.{Broker, RabbitOrderMessage}
use go_order_lab.Rabbit.Message.{encode_rabbit_order_message}

module _ (B : Broker) (queue : Text) where
  abbrev pub dead_letter_queue : Text
  dead_letter_queue = queue ++ codes ".dlq"

  unfoldable pub publish_retry : RabbitOrderMessage → Action B.State (Unit {0})
  unfolding encode_rabbit_order_message
  publish_retry msg s = elim (encode_rabbit_order_message B msg) [
    | ok body ↦ B.publish queue body s
    | err e ↦ (err e, s)
  ]

  unfoldable pub publish : Text → Action B.State (Unit {0})
  unfolding publish_retry
  publish order_no = publish_retry (record { order_no = order_no; retry = pos 0 })

  -- `now` is `time.Now()`.
  unfoldable pub publish_dead_letter : ℤ → RabbitOrderMessage → Text → Action B.State (Unit {0})
  publish_dead_letter now msg reason = B.publish dead_letter_queue (
      B.marshal_dead_letter
        (record { order_no = msg.order_no; retry = msg.retry; reason = reason; failed_at = now }))
