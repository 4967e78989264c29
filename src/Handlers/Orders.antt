-- ===== src/Handlers/Orders.antt =====
-- internal/handler/order.go. A decoded body, or the error of its decoding, is an argument.
use go_order_lab.Prelude.{Result, ok, err, Action, ℤ, Text, codes}
use go_order_lab.Floats.{Floats}
use go_order_lab.Model.{Order}
use go_order_lab.Env.{Env, World}
use go_order_lab.Orders.Service.{OrderService, error_text}
use go_order_lab.Orders.Create.{CreateOrderInput, Reads, create_order_context}
use go_order_lab.Orders.Checkout.{CheckoutCartInput, CheckoutReads, checkout_cart as check_out}
use go_order_lab.Orders.Cancel.{cancel_order as cancel_by_user, expire_orders as expire_unpaid}
use go_order_lab.Orders.Payment.{PaymentCallbackInput, payment_callback as take_callback}
use go_order_lab.Orders.Compensate.{CompensateInput, compensate as run_compensation}
use go_order_lab.Orders.Reconcile.{StockReconcileInput, reconcile_stock as reconcile_with_cache}
use go_order_lab.Orders.Queries.{
  list_orders as orders_of, get_order as order_of, list_logs as all_logs,
}
use go_order_lab.Http.{Response, ok_response, created_response, accepted_response}
use go_order_lab.Http.Auth.{user_id_of}
use go_order_lab.Http.Answers.{
  Payload, accepted_order, order, orders, cancellation, expired_orders, compensation,
  reconciliation, payment, logs, order_error_status, order_error_metric, bad_request, server_error,
  Requests, answer, call, look, with_body, count_event,
}

abbrev pub accepted_answer : Order × ℤ → Response Payload
accepted_answer (o, stock_left) = accepted_response (accepted_order o.order_no o.status stock_left)

module _ (E : Env) (R : Floats) where
  -- The name of the result in the metrics: that of success, or of the error.
  abbrev pub result_name : {A : Type 0} → Text → Result A → Text
  result_name done (ok a) = done
  result_name done (err e) = order_error_metric e

  -- A call whose result is counted as a business event.
  abbrev pub counted :
      {A : Type 0} → Text → Text → (A → Response Payload) → Action (World E) A → Requests E R
  counted event done respond m (c, a) =
      let (r, w) = m a.world in
      (
        answer E R order_error_status respond r c,
        count_event E R event (result_name done r) (record a { world = w }),
      )

module _ (E : Env) (R : Floats) (S : OrderService) where
  unfoldable pub create_order : Result CreateOrderInput → Reads → Requests E R
  unfolding order_error_status order_error_metric error_text user_id_of
  create_order body reads = with_body E R body (λ input (c, a).
      counted E R (codes "activity_order") (codes "accepted") accepted_answer
        (create_order_context E S (user_id_of c) input reads) (c, a))

  unfoldable pub checkout_cart : Result CheckoutCartInput → CheckoutReads → Requests E R
  unfolding error_text user_id_of
  checkout_cart body reads = with_body E R body (λ input (c, a).
      call E R bad_request (λ o. created_response (order o))
        (check_out E (user_id_of c) input reads) (c, a))

  unfoldable pub list_orders : Requests E R
  unfolding error_text user_id_of
  list_orders (c, a) =
      look E R server_error (λ xs. ok_response (orders xs)) (orders_of E (user_id_of c)) (c, a)

  unfoldable pub get_order : Text → Requests E R
  unfolding order_error_status error_text user_id_of
  get_order order_no (c, a) =
      look E R order_error_status (λ o. ok_response (order o)) (order_of E (user_id_of c) order_no)
        (c, a)

  unfoldable pub cancel_order : Text → Requests E R
  unfolding order_error_status error_text user_id_of
  cancel_order order_no (c, a) =
      call E R order_error_status (λ x. ok_response (cancellation x))
        (cancel_by_user E S (user_id_of c) order_no) (c, a)

  -- The body is the timeout in seconds.
  unfoldable pub expire_orders : Result ℤ → ℤ → Requests E R
  unfolding error_text
  expire_orders body now = with_body E R body (λ timeout_seconds.
      call E R server_error (λ n. ok_response (expired_orders n))
        (expire_unpaid E S timeout_seconds now))

  unfoldable pub compensate : Result CompensateInput → ℤ → Requests E R
  unfolding error_text
  compensate body now = with_body E R body (λ input.
      call E R server_error (λ x. ok_response (compensation x)) (run_compensation E S input now))

  unfoldable pub reconcile_stock : Result StockReconcileInput → ℤ → Requests E R
  unfolding error_text
  reconcile_stock body now = with_body E R body (λ input.
      call E R server_error (λ x. ok_response (reconciliation x))
        (reconcile_with_cache E S input now))

  unfoldable pub payment_callback : Result PaymentCallbackInput → Requests E R
  unfolding order_error_status order_error_metric error_text
  payment_callback body = with_body E R body (λ input.
      counted E R (codes "payment_callback") (codes "processed") (λ x. ok_response (payment x))
        (take_callback E input))

  unfoldable pub list_logs : Requests E R
  unfolding error_text
  list_logs = look E R server_error (λ xs. ok_response (logs xs)) (all_logs E)
