-- ===== src/Tests/Stock.antt =====
-- The stock's theorems on a concrete shop.
use go_order_lab.Prelude.{
  ◌≡◌, refl, none, List, [], ◌∷◌, pos, ◌+ℤ◌, Text, codes, arith, text_eq, decimal, Bool-cases, ◌-ℤ◌,
  wrap64,
}
use go_order_lab.Model.{wait_pay, new_activity_order_key}
use go_order_lab.Redis.Stock.{reserve, release, interpret}
use go_order_lab.Redis.Keys.{stock_key, users_key}
use go_order_lab.Store.Sums.{sum_by}
use go_order_lab.Orders.Create.{CreateOrderInput, Reads}
use go_order_lab.Orders.Balance.{Balanced, taken_total}
use go_order_lab.Orders.Run.{Request, run, creates, cancels, works}
use go_order_lab.Orders.Balance.Run.{run-Balanced}
use go_order_lab.Tests.Shop.{shop, open_shop, with_redis}

abbrev pub reads : Text → Reads
reads order_no = record {
  context_error = none;
  request_id = codes "x";
  order_no = order_no;
  now = pos 20;
  update_now = pos 21;
}

abbrev pub wanted : CreateOrderInput
wanted = record { activity_id = 1; request_id = codes "r" }

-- User 7 orders, user 8 cancels, a worker runs, and user 9 orders.
abbrev pub day : List Request
day =
    creates 7 wanted (reads (codes "AO1"))
    ∷ cancels 8 (codes "AO9")
    ∷ works none 1
    ∷ creates 9 wanted (reads (codes "AO2"))
    ∷ []

open_shop-Balanced : Balanced shop 1 (pos 3) (open_shop wait_pay).db
unfolding sum_by ◌+ℤ◌
open_shop-Balanced = record { in_stock = omega arith; accounted = refl }

run-Balanced_example : Balanced shop 1 (pos 3) (run shop with_redis day (open_shop wait_pay)).db
run-Balanced_example =
    run-Balanced shop with_redis 1 (pos 3) (omega arith) (omega arith, omega arith) day
      (open_shop wait_pay) open_shop-Balanced

-- The day is not idle: two units are taken at its end, by users 7 and 9.
day_takes : taken_total shop 1 (run shop with_redis day (open_shop wait_pay)).db ≡ pos 2
unfolding sum_by run text_eq reserve stock_key decimal interpret Bool-cases new_activity_order_key
    release users_key ◌-ℤ◌ wrap64 ◌+ℤ◌
day_takes = refl
