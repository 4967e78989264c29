-- ===== src/Admin/Report.antt =====
-- What the overview and a page of orders say of the tables.
use go_order_lab.Prelude.{
  ℕ, zero, suc, ◌+◌, ◌≤◌, ◌≡◌, ◌≢◌, Error, refl, sym, ap, ◌∙◌, Bool, true, false, List, [], ◌∷◌,
  reverse, ok, err, ℤ, arith, length, length-reverse, min, if◌then◌else◌, Result-cases, inl, inr,
}
use go_order_lab.Store.Rows.{count, select}
use go_order_lab.Store.Sums.{sum_by}
use go_order_lab.Model.{Order, OrderStatus, queued, wait_pay, paid, cancelled, closed, OperationLog}
use go_order_lab.Env.{Env, World}
use go_order_lab.Orders.Queries.{take}
use go_order_lab.Admin.{
  status_eq, AdminOverview, AdminOrderQuery, AdminOrderList, has_status, is_failed, page_limit,
  matches, overview, list_orders,
}

-- A status that none of the counters of the overview counts.
abbrev pub is_unknown_status : OrderStatus → Bool
is_unknown_status (OrderStatus.other s) = true
is_unknown_status _ = false

abbrev pub is_unknown : Order → Bool
is_unknown o = is_unknown_status o.status

module _ {R : Type 0} where
  length-take : (n : ℕ) (xs : List R) → length (take n xs) ≡ min n (length xs)
  length-take zero xs = ground arith
  length-take (suc n) [] = ground arith
  length-take (suc n) (x ∷ xs) = ground (arith, length-take n xs)

  length-select : (p : R → Bool) (xs : List R) → length (select p xs) ≡ count p xs
  length-select p [] = refl
  length-select p (x ∷ xs) = ground (arith, length-select p xs)

  count_all : (xs : List R) → count (λ _. true) xs ≡ length xs
  count_all [] = refl
  count_all (x ∷ xs) = omega (arith, count_all xs)

-- The rows of a page that has room for `n`.
page_length :
    {R : Type 0} (n : ℕ) (p : R → Bool) (xs : List R)
    → length (take n (reverse (select p xs))) ≡ min n (count p xs)
page_length n p xs =
    length-take n (reverse (select p xs))
    ∙ ap (min n) (length-reverse (select p xs) ∙ length-select p xs)

page_limit_range : (n : ℤ) → (1 ≤ page_limit n) × (page_limit n ≤ 100)
unfolding page_limit
page_limit_range n = ground arith

abbrev bit : Bool → ℕ
bit b = if b then 1 else 0

-- Each order is counted by exactly one of the six.
statuses_split :
    (s : OrderStatus)
    → bit (status_eq s queued)
        + bit (status_eq s wait_pay)
        + bit (status_eq s paid)
        + bit (status_eq s cancelled)
        + bit (status_eq s closed)
        + bit (is_unknown_status s)
      ≡ 1
statuses_split OrderStatus.queued = refl
statuses_split OrderStatus.wait_pay = refl
statuses_split OrderStatus.paid = refl
statuses_split OrderStatus.cancelled = refl
statuses_split OrderStatus.closed = refl
statuses_split (OrderStatus.other s) = refl

count_step :
    {R : Type 0} (p : R → Bool) (x : R) (xs : List R) → count p (x ∷ xs) ≡ bit (p x) + count p xs
count_step p x xs = ground arith

counts_split :
    (xs : List Order)
    → length xs
      ≡ count (has_status queued) xs
        + count (has_status wait_pay) xs
        + count (has_status paid) xs
        + count (has_status cancelled) xs
        + count (has_status closed) xs
        + count is_unknown xs
counts_split [] = refl
counts_split (x ∷ xs) = omega (
  arith,
  counts_split xs,
  statuses_split x.status,
  count_step (has_status queued) x xs,
  count_step (has_status wait_pay) x xs,
  count_step (has_status paid) x xs,
  count_step (has_status cancelled) x xs,
  count_step (has_status closed) x xs,
  count_step is_unknown x xs,
)

module _ (E : Env) (w : World E) (v : AdminOverview) (done : (overview E w).0 ≡ ok v) where
  total_read : v.total_orders ≡ length (E.orders.rows w.db.orders)
  unfolding overview
  total_read =
      E.orders.count_ok (λ _. true) w.db.orders v.total_orders (ground arith)
      ∙ count_all (E.orders.rows w.db.orders)

  queued_read : v.queued_orders ≡ count (has_status queued) (E.orders.rows w.db.orders)
  unfolding overview
  queued_read = E.orders.count_ok (has_status queued) w.db.orders v.queued_orders (ground arith)

  wait_pay_read : v.wait_pay_orders ≡ count (has_status wait_pay) (E.orders.rows w.db.orders)
  unfolding overview
  wait_pay_read =
      E.orders.count_ok (has_status wait_pay) w.db.orders v.wait_pay_orders (ground arith)

  paid_read : v.paid_orders ≡ count (has_status paid) (E.orders.rows w.db.orders)
  unfolding overview
  paid_read = E.orders.count_ok (has_status paid) w.db.orders v.paid_orders (ground arith)

  cancelled_read : v.cancelled_orders ≡ count (has_status cancelled) (E.orders.rows w.db.orders)
  unfolding overview
  cancelled_read =
      E.orders.count_ok (has_status cancelled) w.db.orders v.cancelled_orders (ground arith)

  closed_read : v.closed_orders ≡ count (has_status closed) (E.orders.rows w.db.orders)
  unfolding overview
  closed_read = E.orders.count_ok (has_status closed) w.db.orders v.closed_orders (ground arith)

  gmv_read :
      v.paid_gmv ≡ sum_by (λ o. o.amount) (select (has_status paid) (E.orders.rows w.db.orders))
  unfolding overview
  gmv_read = E.orders.sum_ok (has_status paid) (λ o. o.amount) w.db.orders v.paid_gmv (ground arith)

  failed_read : v.failed_logs ≡ count is_failed (E.operation_logs.rows w.db.operation_logs)
  unfolding overview
  failed_read = E.operation_logs.count_ok is_failed w.db.operation_logs v.failed_logs (ground arith)

  failures_read :
      (ls : List OperationLog) × (E.operation_logs.find is_failed w.db.operation_logs ≡ ok ls)
      × (v.recent_failures ≡ take 5 (reverse ls))
  unfolding overview
  failures_read = elim (Result-cases (E.operation_logs.find is_failed w.db.operation_logs)) [
    | inr (e, refused) ↦ absurd (ground arith)
    | inl (ls, read) ↦ (ls, read, ground arith)
  ]

  -- An overview that is given without an error counts each order once: the total is the sum of the five
  -- counts by status and of the orders in any other status. The paid turnover is the sum of the amounts
  -- of the paid orders, and the recent failures are the newest of the failed log lines, 5 or, if there
  -- are fewer, all of them.
  pub overview-accounts :
      (v.total_orders ≡ length (E.orders.rows w.db.orders))
      × (v.total_orders
          ≡ v.queued_orders
            + v.wait_pay_orders
            + v.paid_orders
            + v.cancelled_orders
            + v.closed_orders
            + count is_unknown (E.orders.rows w.db.orders))
      × (v.paid_gmv ≡ sum_by (λ o. o.amount) (select (has_status paid) (E.orders.rows w.db.orders)))
      × (v.recent_failures
          ≡ take 5 (reverse (select is_failed (E.operation_logs.rows w.db.operation_logs))))
      × (length v.recent_failures ≡ min 5 v.failed_logs)
  overview-accounts =
      let rows = E.orders.rows w.db.orders in
      let (ls, read, recent) = failures_read in
      let failures = E.operation_logs.find_ok is_failed w.db.operation_logs ls read in
      let newest = recent ∙ ap (λ l. take 5 (reverse l)) failures in
      (
        total_read,
        omega (
          arith,
          total_read,
          counts_split rows,
          queued_read,
          wait_pay_read,
          paid_read,
          cancelled_read,
          closed_read,
        ),
        gmv_read,
        newest,
        ap length newest
            ∙ page_length 5 is_failed (E.operation_logs.rows w.db.operation_logs)
            ∙ ap (min 5) (sym failed_read),
      )

module _ (E : Env) (input : AdminOrderQuery) (w : World E) (v : AdminOrderList)
    (done : (list_orders E input w).0 ≡ ok v) where
  no_page : (e : Error) → E.orders.find (matches input) w.db.orders ≢ err e
  unfolding list_orders
  no_page e refused = ground arith

  -- A page of orders that is given without an error has the newest of the orders that the query matches,
  -- at most 100 of them and never fewer than the page size unless that is all, beside their full number.
  pub list_orders-page :
      (v.total ≡ count (matches input) (E.orders.rows w.db.orders))
      × (v.items
          ≡ take
              (page_limit input.limit)
              (reverse (select (matches input) (E.orders.rows w.db.orders))))
      × (length v.items ≡ min (page_limit input.limit) v.total)
      × (1 ≤ page_limit input.limit)
      × (page_limit input.limit ≤ 100)
  unfolding list_orders
  list_orders-page = elim (Result-cases (E.orders.find (matches input) w.db.orders)) [
    | inr (e, refused) ↦ absurd (no_page e refused)
    | inl (os, read) ↦
        (let rows = E.orders.rows w.db.orders in
          let total : v.total ≡ count (matches input) rows =
            E.orders.count_ok (matches input) w.db.orders v.total (ground arith) in
          let page : v.items ≡ take (page_limit input.limit) (reverse os) = ground arith in
          let items =
            page
            ∙ ap (λ l. take (page_limit input.limit) (reverse l))
                (E.orders.find_ok (matches input) w.db.orders os read) in
          let (some_room, bounded) = page_limit_range input.limit in
          (
            total,
            items,
            ap length items
                ∙ page_length (page_limit input.limit) (matches input) rows
                ∙ ap (min (page_limit input.limit)) (sym total),
            some_room,
            bounded,
          ))
  ]
