-- ===== src/Tests/Payments.antt =====
-- The theorems on payments and on the reconciliation at a concrete shop.
use go_order_lab.Prelude.{
  ◌≡◌, refl, true, false, some, [], ◌∷◌, ok, err, illegal_transition, pos, Text, codes, text_eq,
  Bool-cases,
}
use go_order_lab.Store.Rows.{All, select}
use go_order_lab.Model.{wait_pay, paid, queued}
use go_order_lab.Env.Atomic.{SameTables}
use go_order_lab.Orders.Payment.{PaymentCallbackInput, PaymentResult, payment_callback}
use go_order_lab.Orders.Payment.Once.{payment_callback-once}
use go_order_lab.Orders.Effect.Pay.{Paid, payment_callback-Paid}
use go_order_lab.Orders.Reconcile.{
  StockReconcileInput, StockReconcileResult, reconcile_stock, is_reconciled,
}
use go_order_lab.Orders.Reconcile.Repair.{cached}
use go_order_lab.Orders.Reconcile.Agree.{reconcile_stock-agrees}
use go_order_lab.Redis.Stock.{get_stock, set_stock}
use go_order_lab.Tests.Shop.{shop, open_shop, with_redis, sale}

-- A payment under a new number, and one under the recorded number T1.
abbrev paying : Text → PaymentCallbackInput
paying number = record { order_no = codes "AO9"; transaction_no = number; status = codes "SUCCESS" }

abbrev paid_result : PaymentResult
paid_result = record {
  order_no = codes "AO9";
  transaction_no = codes "T2";
  order_status = paid;
  already_processed = false;
  message = codes "payment success, order status changed to PAID";
}

pays : (payment_callback shop (paying (codes "T2")) (open_shop wait_pay)).0 ≡ ok paid_result
unfolding payment_callback text_eq Bool-cases
pays = refl

is_success : text_eq (codes "SUCCESS") (codes "SUCCESS") ≡ true
unfolding text_eq
is_success = refl

payment_callback-Paid_example :
    Paid shop
      (paying (codes "T2"))
      is_success
      (open_shop wait_pay)
      (payment_callback shop (paying (codes "T2")) (open_shop wait_pay)).1
payment_callback-Paid_example =
    payment_callback-Paid shop (paying (codes "T2")) is_success (open_shop wait_pay) paid_result
      pays refl

payment_callback-once_example :
    SameTables shop
      (open_shop wait_pay).db
      (payment_callback shop (paying (codes "T1")) (open_shop wait_pay)).1.db
unfolding text_eq
payment_callback-once_example =
    payment_callback-once shop (paying (codes "T1")) (open_shop wait_pay) refl

-- An order that is still QUEUED is not paid.
too_early :
    (payment_callback shop (paying (codes "T2")) (open_shop queued)).0 ≡ err illegal_transition
unfolding payment_callback text_eq
too_early = refl

abbrev repairing : StockReconcileInput
repairing = record { activity_id = 0; repair = true }

abbrev one_missing : StockReconcileResult
one_missing = record {
  checked = 1;
  missing = 1;
  mismatched = 0;
  repaired = 1;
  items =
      record {
        activity_id = 1;
        activity_name = codes "sale";
        status = sale.status;
        mysql_stock = pos 2;
        redis_stock = pos 0;
        redis_exists = false;
        repaired = true;
      }
      ∷ [];
}

repairs :
    (reconcile_stock shop with_redis repairing (pos 20) (open_shop wait_pay)).0 ≡ ok one_missing
unfolding reconcile_stock get_stock set_stock
repairs = refl

reconcile_stock-agrees_example :
    All
      (λ a.
        cached shop (reconcile_stock shop with_redis repairing (pos 20) (open_shop wait_pay)).1 a.id
        ≡ some a.stock)
      (select (is_reconciled repairing) (sale ∷ []))
reconcile_stock-agrees_example =
    reconcile_stock-agrees shop with_redis repairing (pos 20) (open_shop wait_pay) one_missing refl
      repairs
