-- ===== src/Tests/Catalog.antt =====
-- The theorems on the catalog and the reports of the administrators at a concrete shop.
use go_order_lab.Prelude.{
  ◌+◌, ◌≡◌, refl, true, [], reverse, ok, pos, arith, codes, length, min, Bool-cases, ◌+ℤ◌,
}
use go_order_lab.Store.Rows.{stamp, stamp_new, count, select}
use go_order_lab.Store.Sums.{sum_by}
use go_order_lab.Model.{Activity, activity_columns, offline, wait_pay, paid}
use go_order_lab.Orders.Queries.{take}
use go_order_lab.Orders.Service.{seconds}
use go_order_lab.Catalog.{CreateActivityInput, create_activity, new_activity, write_status}
use go_order_lab.Catalog.Activities.{Published, create_activity-Published}
use go_order_lab.Admin.{AdminOverview, overview, is_failed, has_status}
use go_order_lab.Admin.Report.{is_unknown, overview-accounts}
use go_order_lab.Tests.Shop.{shop, open_shop, sale}

abbrev evening : CreateActivityInput
evening = record {
  product_id = 1;
  name = codes "evening";
  price = pos 99;
  stock = pos 3;
  duration_seconds = pos 60;
}

abbrev evening_sale : Activity
evening_sale = stamp_new activity_columns 100 (pos 500) (new_activity evening (pos 10))

published_evening :
    (create_activity shop true evening (pos 10) (pos 11) (open_shop wait_pay)).0 ≡ ok evening_sale
unfolding create_activity seconds Bool-cases
published_evening = refl

create_activity-Published_example :
    Published shop true evening
      (pos 10)
      (pos 11)
      (open_shop wait_pay)
      evening_sale
      (create_activity shop true evening (pos 10) (pos 11) (open_shop wait_pay)).1
create_activity-Published_example =
    create_activity-Published shop true evening (pos 10) (pos 11) evening_sale (open_shop wait_pay)
      (omega arith) published_evening

-- The sale as it was read before its last two units were ordered.
abbrev full_sale : Activity
full_sale = record sale { stock = pos 4 }

abbrev taken_offline : Activity
taken_offline = stamp activity_columns (pos 500) (record full_sale { status = offline })

written : (write_status shop full_sale offline (open_shop wait_pay)).0 ≡ ok taken_offline
unfolding write_status Bool-cases
written = refl

abbrev one_paid : AdminOverview
one_paid = record {
  users = 0;
  products = 1;
  activities = 1;
  total_orders = 1;
  queued_orders = 0;
  wait_pay_orders = 0;
  paid_orders = 1;
  cancelled_orders = 0;
  closed_orders = 0;
  paid_gmv = pos 99;
  product_stock = pos 5;
  activity_stock = pos 2;
  failed_logs = 0;
  recent_failures = [];
}

shown : (overview shop (open_shop paid)).0 ≡ ok one_paid
unfolding overview ◌+ℤ◌ sum_by
shown = refl

overview-accounts_example :
    (one_paid.total_orders ≡ length (shop.orders.rows (open_shop paid).db.orders))
    × (one_paid.total_orders
        ≡ one_paid.queued_orders
          + one_paid.wait_pay_orders
          + one_paid.paid_orders
          + one_paid.cancelled_orders
          + one_paid.closed_orders
          + count is_unknown (shop.orders.rows (open_shop paid).db.orders))
    × (one_paid.paid_gmv
        ≡ sum_by
            (λ o. o.amount)
            (select (has_status paid) (shop.orders.rows (open_shop paid).db.orders)))
    × (one_paid.recent_failures
        ≡ take 5 (
            reverse
              (select is_failed (shop.operation_logs.rows (open_shop paid).db.operation_logs))))
    × (length one_paid.recent_failures ≡ min 5 one_paid.failed_logs)
overview-accounts_example = overview-accounts shop (open_shop paid) one_paid shown
