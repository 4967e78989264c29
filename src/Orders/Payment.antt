-- ===== src/Orders/Payment.antt =====
-- `PaymentCallback` of internal/service/order.go.
pub mod Once
use go_order_lab.Prelude.{
  ℕ, Bool, true, false, not, Option, none, some, List, [], Result, ok, err, Error, order_not_found,
  illegal_transition, Action, query, query_or, pure, raise_if, ◌>>=◌, ◌>>◌, Text, codes, text_eq,
  if◌then◌else◌, execute,
}
use go_order_lab.Model.{Order, OrderStatus, Payment, paid, other, is_wait_pay, no_base}
use go_order_lab.Env.{Env, World, transaction, save_order, create_payment, log, report}
use go_order_lab.Orders.Service.{OrderService, error_text, success, failed}
use go_order_lab.Orders.Cancel.{has_order_no}

pub record PaymentCallbackInput : Type 0 where
  pub order_no : Text
  pub transaction_no : Text
  pub status : Text

pub record PaymentResult : Type 0 where
  pub order_no : Text
  pub transaction_no : Text
  pub order_status : OrderStatus
  pub already_processed : Bool
  pub message : Text

abbrev pub has_transaction_no : Text → Payment → Bool
has_transaction_no transaction_no p = text_eq p.transaction_no transaction_no

abbrev pub new_payment : PaymentCallbackInput → Payment
new_payment input = record {
  base = no_base;
  transaction_no = input.transaction_no;
  order_no = input.order_no;
  status = input.status;
}

abbrev pub answer : PaymentCallbackInput → Order → OrderStatus → Text → PaymentResult
answer input order status message = record {
  order_no = order.order_no;
  transaction_no = input.transaction_no;
  order_status = status;
  already_processed = false;
  message = message;
}

module _ (E : Env) where
  -- The status of an order that is not found is the empty string.
  abbrev pub status_of : Text → World E → OrderStatus
  status_of order_no w = elim (E.orders.first (has_order_no order_no) w.db.orders) [
    | ok order ↦ order.status
    | err _ ↦ other []
  ]

  -- The answer to a callback whose transaction number is recorded.
  unfoldable pub duplicate_callback : PaymentCallbackInput → Payment → World E → PaymentResult
  duplicate_callback input payment w = record {
    order_no = payment.order_no;
    transaction_no = input.transaction_no;
    order_status = status_of payment.order_no w;
    already_processed = true;
    message = codes "duplicate callback ignored by transaction id";
  }

  -- The part behind the look-up of the transaction number.
  unfoldable pub new_callback : PaymentCallbackInput → Action (World E) PaymentResult
  new_callback input = do
    order ← query_or order_not_found (λ w. E.orders.first (has_order_no input.order_no) w.db.orders)
    if not (text_eq input.status (codes "SUCCESS"))
        then create_payment E (new_payment input)
          >> pure (answer input order order.status (codes "non-success callback recorded"))
        else raise_if (not (is_wait_pay order.status)) illegal_transition
          >> save_order E (record order { status = paid })
          >> create_payment E (new_payment input)
          >> pure (answer input order paid (codes "payment success, order status changed to PAID"))

  unfoldable pub payment_tx : PaymentCallbackInput → Action (World E) PaymentResult
  unfolding duplicate_callback new_callback
  payment_tx input w =
      elim (E.payments.first (has_transaction_no input.transaction_no) w.db.payments) [
        | ok payment ↦ (ok (duplicate_callback input payment w), w)
        | err _ ↦ new_callback input w
      ]

  unfoldable pub payment_callback : PaymentCallbackInput → Action (World E) PaymentResult
  unfolding payment_tx log error_text
  payment_callback input w =
      report (λ e. log E (codes "payment_callback_failed") input.order_no 0 failed (error_text e))
        (λ r. log E (codes "payment_callback") r.order_no 0 success r.message)
        (transaction E (payment_tx input) w)
