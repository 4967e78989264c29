-- ===== src/Tests/Orders.antt =====
-- The theorems on the orders' table at a concrete shop.
use go_order_lab.Prelude.{
  ◌≡◌, ◌≤◌, refl, true, ok, err, Error, illegal_transition, pos, codes, arith, failure, text_eq,
  Bool-cases, decimal, ◌-ℤ◌, wrap64, ◌+ℤ◌, ◌*ℤ◌, ◌==◌, ◌⊎◌, inl, inr,
}
use go_order_lab.Store.Evolution.{Evolves}
use go_order_lab.Store.Rows.{stamp_new}
use go_order_lab.Model.{Order, order_columns, wait_pay, paid, cancelled, new_activity_order_key}
use go_order_lab.Env.{World}
use go_order_lab.Env.Atomic.{SameTables}
use go_order_lab.Orders.Create.{Reads, queued_order, create_order_context}
use go_order_lab.Orders.Cancel.{CancelOrderResult, cancel_order}
use go_order_lab.Orders.Checkout.{CheckoutCartInput, CheckoutReads, cart_order, checkout_cart}
use go_order_lab.Orders.Run.{run}
use go_order_lab.Orders.Life.{Later, History}
use go_order_lab.Orders.Life.Past.{orders_of}
use go_order_lab.Orders.Life.Run.{run-History, run-Later, run-one_order}
use go_order_lab.Orders.Effect.Create.{Created, create_order_context-Created}
use go_order_lab.Orders.Effect.Checkout.{CheckedOut, checkout_cart-CheckedOut}
use go_order_lab.Orders.Effect.Cancel.{Cancelled, cancel_order-Cancelled}
use go_order_lab.Redis.Stock.{reserve, release, interpret}
use go_order_lab.Redis.Keys.{stock_key}
use go_order_lab.Orders.Effect.Sold.{InRange, Sells}
use go_order_lab.Orders.Effect.Selling.{products_of}
use go_order_lab.Orders.Effect.CheckoutStock.{cart_of, checkout_cart-Sells}
use go_order_lab.Tests.Shop.{shop, open_shop, with_redis, without_redis, sale}
use go_order_lab.Tests.Stock.{day, reads, wanted}

abbrev after_day : World shop
after_day = run shop with_redis day (open_shop wait_pay)

run-History_example :
    History (shop.orders.rows (open_shop wait_pay).db.orders) (shop.orders.rows after_day.db.orders)
run-History_example = run-History shop with_redis day (open_shop wait_pay)

run-Later_example :
    Evolves Later
      (shop.orders.rows (open_shop wait_pay).db.orders)
      (shop.orders.rows after_day.db.orders)
run-Later_example = run-Later shop with_redis day (open_shop wait_pay)

run-one_order_example : orders_of 7 1 (shop.orders.rows after_day.db.orders) ≤ 1
run-one_order_example =
    run-one_order shop with_redis 7 1 day (open_shop wait_pay) (omega arith) (omega arith)

abbrev now_reads : Reads
now_reads = reads (codes "AO1")

abbrev new_order : Order
new_order = stamp_new order_columns 100 (pos 500) (queued_order 7 wanted now_reads sale)

placed :
    (create_order_context shop with_redis 7 wanted now_reads (open_shop wait_pay)).0
    ≡ ok (new_order, pos 1)
unfolding create_order_context text_eq reserve stock_key decimal interpret Bool-cases
    new_activity_order_key ◌-ℤ◌
placed = refl

create_order_context-Created_example :
    Created shop 7 now_reads with_redis 1 new_order
      (open_shop wait_pay)
      (create_order_context shop with_redis 7 wanted now_reads (open_shop wait_pay)).1
create_order_context-Created_example =
    create_order_context-Created shop 7 now_reads with_redis wanted (open_shop wait_pay) new_order
      (pos 1) placed

-- User 8 has an order of the sale already.
refused :
    (create_order_context shop without_redis 8 wanted now_reads (open_shop wait_pay)).0
    ≡ err Error.duplicate_order
unfolding create_order_context text_eq
refused = refl

abbrev cancelled_result : CancelOrderResult
cancelled_result = record { order_no = codes "AO9"; status = cancelled; returned_stock = true }

cancels :
    (cancel_order shop with_redis 8 (codes "AO9") (open_shop wait_pay)).0 ≡ ok cancelled_result
unfolding cancel_order text_eq Bool-cases release
cancels = refl

cancel_order-Cancelled_example :
    Cancelled shop with_redis 8
      (codes "AO9")
      (open_shop wait_pay)
      (cancel_order shop with_redis 8 (codes "AO9") (open_shop wait_pay)).1
cancel_order-Cancelled_example =
    cancel_order-Cancelled shop with_redis 8 (codes "AO9") (open_shop wait_pay) cancelled_result
      cancels

-- A paid order is not cancelled.
keeps_paid :
    (cancel_order shop with_redis 8 (codes "AO9") (open_shop paid)).0 ≡ err illegal_transition
unfolding cancel_order text_eq
keeps_paid = refl

abbrev checkout : CheckoutCartInput
checkout = record { address_id = 3; user_coupon_id = 6 }

-- The coupon ended at instant 1000.
abbrev late : CheckoutReads
late = record { order_no = codes "AO3"; request_id = codes "z"; now = pos 2000 }

too_late :
    (checkout_cart shop 7 checkout late (open_shop wait_pay)).0
    ≡ err (failure (codes "coupon expired"))
unfolding checkout_cart Bool-cases
too_late = refl

-- The one product of the shop is in range, and so is none.
stocks-InRange : InRange (products_of shop (open_shop wait_pay))
stocks-InRange k = elim (Bool-cases (1 == k)) [
  | inl own ↦ rw own (omega arith, omega arith)
  | inr other ↦ rw other (omega arith, omega arith)
]

abbrev early : CheckoutReads
early = record late { now = pos 20 }

abbrev cart_ordered : Order
cart_ordered =
    stamp_new order_columns 100 (pos 500) (cart_order 7 checkout early 1 (pos 300) (pos 50))

in_time : (checkout_cart shop 7 checkout early (open_shop wait_pay)).0 ≡ ok cart_ordered
unfolding checkout_cart Bool-cases text_eq wrap64 ◌+ℤ◌ ◌*ℤ◌
in_time = refl

checkout_cart-CheckedOut_example :
    CheckedOut shop 7 checkout
      (pos 20)
      (open_shop wait_pay)
      cart_ordered
      (checkout_cart shop 7 checkout early (open_shop wait_pay)).1.db
checkout_cart-CheckedOut_example =
    checkout_cart-CheckedOut shop 7 checkout early cart_ordered (open_shop wait_pay) in_time

-- The two lamps of the cart are taken from the five in stock.
checkout_cart-Sells_example :
    ((order : Order) × ((checkout_cart shop 7 checkout early (open_shop wait_pay)).0 ≡ ok order)
      × Sells
          (products_of shop (open_shop wait_pay))
          (products_of shop (checkout_cart shop 7 checkout early (open_shop wait_pay)).1)
          (cart_of shop 7 checkout early (open_shop wait_pay)))
    ⊎ ((x : Error) × ((checkout_cart shop 7 checkout early (open_shop wait_pay)).0 ≡ err x)
        × SameTables shop
            (open_shop wait_pay).db
            (checkout_cart shop 7 checkout early (open_shop wait_pay)).1.db)
checkout_cart-Sells_example =
    checkout_cart-Sells shop 7 checkout early (open_shop wait_pay) stocks-InRange
