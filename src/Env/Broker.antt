-- ===== src/Env/Broker.antt =====
-- The RabbitMQ channel that internal/service/rabbitmq.go publishes on, and `encoding/json` on its
-- messages. A publishing without an error was written to the connection for its queue; whether the
-- server received it is not known, since the program asks for no confirmation.
use go_order_lab.Prelude.{
  ◌≡◌, Option, some, List, [], ◌∷◌, ◌++◌, Result, ok, ℤ, Text, if◌then◌else◌, text_eq,
}

-- `RabbitOrderMessage`
pub record RabbitOrderMessage : Type 0 where
  pub order_no : Text
  pub retry : ℤ

-- `RabbitDeadLetterMessage`
pub record RabbitDeadLetterMessage : Type 0 where
  pub order_no : Text
  pub retry : ℤ
  pub reason : Text
  pub failed_at : ℤ

pub record Broker : Type 1 where
  pub State : Type 0
  -- The bodies that were written for a queue, oldest first.
  pub written : State → Text → List Text
  pub publish : Text → Text → State → Result (Unit {0}) × State
  pub publish_ok :
      (queue body : Text) (s s' : State)
      → publish queue body s ≡ (ok tt, s')
      → (q : Text)
      → written s' q ≡ (if text_eq queue q then written s q ++ body ∷ [] else written s q)
  -- `json.Marshal` and `json.Unmarshal` on the two message types.
  pub marshal_order : RabbitOrderMessage → Text
  pub unmarshal_order : Text → Option RabbitOrderMessage
  pub marshal_dead_letter : RabbitDeadLetterMessage → Text
  pub unmarshal-marshal : (m : RabbitOrderMessage) → unmarshal_order (marshal_order m) ≡ some m
