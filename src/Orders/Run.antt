-- ===== src/Orders/Run.antt =====
-- The requests that change orders or stocks, and their histories: the handlers of the order service
-- in internal/service/order.go and its workers with the compensation worker, one transaction's caller after the other.
use go_order_lab.Prelude.{ℕ, Option, List, [], ◌∷◌, Error, ℤ, Text}
use go_order_lab.Env.{Env, World}
use go_order_lab.Orders.Service.{OrderService}
use go_order_lab.Orders.Create.{CreateOrderInput, Reads, create_order_context}
use go_order_lab.Orders.Cancel.{cancel_order, expire_orders}
use go_order_lab.Orders.Payment.{PaymentCallbackInput, payment_callback}
use go_order_lab.Orders.Worker.{worker_round, deliver}
use go_order_lab.Orders.Compensate.{CompensateInput, compensate}
use go_order_lab.Orders.Start.{CompensationWorkerConfig, compensation_round}
use go_order_lab.Orders.Checkout.{CheckoutCartInput, CheckoutReads, checkout_cart}

-- What changes orders or stocks: the handlers of the order service and its workers.
pub data Request : Type 0 where
  creates : ℕ → CreateOrderInput → Reads → Request
  checks_out : ℕ → CheckoutCartInput → CheckoutReads → Request
  cancels : ℕ → Text → Request
  expires : ℤ → ℤ → Request
  pays : PaymentCallbackInput → Request
  works : Option Error → ℕ → Request
  delivers : Text → ℤ → Option Error → ℕ → Text → Request
  compensates : CompensateInput → ℤ → Request
  sweeps : CompensationWorkerConfig → ℤ → Request

module _ (E : Env) (S : OrderService) where
  unfoldable pub serve : Request → World E → World E
  unfolding create_order_context checkout_cart cancel_order expire_orders payment_callback
      worker_round deliver compensate compensation_round
  serve (creates user_id input reads) w = (create_order_context E S user_id input reads w).1
  serve (checks_out user_id input reads) w = (checkout_cart E user_id input reads w).1
  serve (cancels user_id order_no) w = (cancel_order E S user_id order_no w).1
  serve (expires timeout now) w = (expire_orders E S timeout now w).1
  serve (pays input) w = (payment_callback E input w).1
  serve (works context_error worker_id) w = (worker_round E context_error worker_id w).1
  serve (delivers queue now context_error worker_id body) w =
      (deliver E S queue now context_error worker_id body w).2
  serve (compensates input now) w = (compensate E S input now w).1
  serve (sweeps cfg now) w = compensation_round E S cfg now w

  unfoldable pub run : List Request → World E → World E
  unfolding serve
  run [] w = w
  run (r ∷ rs) w = run rs (serve r w)
