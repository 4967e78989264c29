-- ===== src/Orders/Worker/Delivery.antt =====
-- What happens to the delivered message of an order whose processing fails. The program publishes without
-- confirmations, so what is written to the connection need not have reached the server.
use go_order_lab.Prelude.{◌≡◌, Bool, true, false, Error, List, [], ◌∷◌, ◌++◌, Text, ◌⊎◌, ℤ, ltb_ℤ}
use go_order_lab.Env.{Env, World}
use go_order_lab.Env.Broker.{RabbitOrderMessage, RabbitDeadLetterMessage}
use go_order_lab.Rabbit.Queue.{dead_letter_queue}
use go_order_lab.Orders.Service.{OrderService, error_text}
use go_order_lab.Orders.Worker.{Settlement, ack, nack, next_try}

module _ (E : Env) (S : OrderService) (queue : Text) where
  abbrev pub sent : World E → Text → List Text
  sent w q = E.broker.written w.broker q

  abbrev dead_letter : ℤ → RabbitOrderMessage → Error → RabbitDeadLetterMessage
  dead_letter now msg e = record {
    order_no = msg.order_no;
    retry = msg.retry;
    reason = error_text e;
    failed_at = now;
  }

  -- The message was written for the queue, for another try, or else for the dead letter queue.
  pub record Retried (msg : RabbitOrderMessage) (w w' : World E) : Type 0 where
    pub may_retry : ltb_ℤ msg.retry S.rabbit_max_retries ≡ true
    pub queued_again :
        sent w' queue ≡ sent w queue ++ E.broker.marshal_order (next_try E S queue msg) ∷ []

  pub record Buried (now : ℤ) (msg : RabbitOrderMessage) (e : Error) (w w' : World E) : Type 0 where
    pub no_more_retries : ltb_ℤ msg.retry S.rabbit_max_retries ≡ false
    pub buried :
        sent w' (dead_letter_queue E.broker queue)
        ≡ sent w (dead_letter_queue E.broker queue)
          ++ E.broker.marshal_dead_letter (dead_letter now msg e) ∷ []

  -- How a delivery is settled: the worker goes on, and the broker is to deliver the message again, or
  -- it was written for one of the queues before it is acknowledged.
  abbrev pub HandedOn :
      ℤ → RabbitOrderMessage → Error → World E → Settlement × Bool × World E → Type 0
  HandedOn now msg e w (settled, goes_on, w') =
      (goes_on ≡ true)
      × ((settled ≡ nack true) ⊎ ((settled ≡ ack) × (Retried msg w w' ⊎ Buried now msg e w w')))
