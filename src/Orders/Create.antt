-- ===== src/Orders/Create.antt =====
-- `CreateOrderContext` of internal/service/order.go, by the database alone and behind the cache.
pub mod Frame
use go_order_lab.Prelude.{
  ℕ, Bool, true, false, not, ◌&&◌, ◌||◌, Option, none, some, List, [], ◌++◌, Result, ok, err, Error,
  activity_not_found, activity_not_available, sold_out, duplicate_order, Action, query, query_or,
  pure, raise, raise_if, ◌>>=◌, ◌>>◌, ℤ, pos, ◌-ℤ◌, wrap64, ltb_ℤ, leb_ℤ, Text, codes, text_eq,
  ◌==◌, ltb, if◌then◌else◌, execute,
}
use go_order_lab.Store.Rows.{has_id}
use go_order_lab.Model.{
  Activity, activity_columns, Order, OrderStatus, queued, is_published, new_activity_order_key,
  no_base,
}
use go_order_lab.Env.{
  Env, World, transaction, save_activity, put_activities, put_orders, log, report,
}
use go_order_lab.Orders.Service.{
  OrderService, error_text, print_int, success, failed, ensure_activity_orderable,
  is_activity_order_unique_conflict,
}
use go_order_lab.Orders.Publish.{publish_order_task}
use go_order_lab.Orders.Restore.{release}

pub record CreateOrderInput : Type 0 where
  pub activity_id : ℕ
  pub request_id : Text

-- What a call reads from its surroundings: the context's error, the random texts, and the clock, at
-- the check of the activity and at the update.
pub record Reads : Type 0 where
  pub context_error : Option Error
  pub request_id : Text
  pub order_no : Text
  pub now : ℤ
  pub update_now : ℤ

-- `user_id = ? AND activity_id = ?`
abbrev pub placed_by : ℕ → ℕ → Order → Bool
placed_by user_id activity_id o = o.user_id == user_id && o.activity_id == activity_id

-- The order of an activity, as both ways write it.
abbrev pub queued_order : ℕ → CreateOrderInput → Reads → Activity → Order
queued_order user_id input reads activity = record {
  base = no_base;
  order_no = reads.order_no;
  request_id = input.request_id;
  user_id = user_id;
  product_id = activity.product_id;
  activity_id = activity.id;
  activity_order_key = new_activity_order_key user_id activity.id;
  address_id = 0;
  user_coupon_id = 0;
  original_amount = activity.price;
  discount_amount = pos 0;
  amount = activity.price;
  status = queued;
}

-- The condition of the UPDATE that takes a unit of the stock.
abbrev pub is_takeable : ℕ → ℤ → Activity → Bool
is_takeable activity_id now a =
    has_id activity_columns activity_id a
    && ltb_ℤ (pos 0) a.stock
    && is_published a.status
    && leb_ℤ a.start_at now
    && leb_ℤ now a.end_at

-- A request without an identifier gets a random one.
abbrev pub named_request : CreateOrderInput → Reads → CreateOrderInput
named_request input reads =
    if text_eq input.request_id []
    then record input { request_id = codes "req_" ++ reads.request_id }
    else input

module _ (E : Env) where
  abbrev pub find_activity : ℕ → World E → Result Activity
  find_activity activity_id w =
      E.activities.first (has_id activity_columns activity_id) w.db.activities

  -- `tx.Create(&order)`, with the clash on the activity's key named.
  unfoldable pub insert_order : Order → Action (World E) Order
  unfolding is_activity_order_unique_conflict
  insert_order order w = elim (E.orders.create order w.db.orders) [
    | ok (stored, s) ↦ (ok stored, put_orders E s w)
    | err e ↦ (err (if is_activity_order_unique_conflict e then duplicate_order else e), w)
  ]

  unfoldable pub refuse_second_order : ℕ → ℕ → Action (World E) (Unit {0})
  refuse_second_order user_id activity_id = do
    count ← query (λ w. E.orders.count_where (placed_by user_id activity_id) w.db.orders)
    raise_if (ltb 0 count) duplicate_order

  -- The transaction of `createOrderWithDB`.
  unfoldable pub create_order_tx : ℕ → CreateOrderInput → Reads → Action (World E) (Order × ℤ)
  unfolding ensure_activity_orderable refuse_second_order insert_order
  create_order_tx user_id input reads = do
    activity ← query_or activity_not_found (find_activity input.activity_id)
    query (λ _. ensure_activity_orderable activity reads.now)
    raise_if (leb_ℤ activity.stock (pos 0)) sold_out
    refuse_second_order user_id input.activity_id
    let stock_left = wrap64 (activity.stock -ℤ pos 1)
    save_activity E (record activity { stock = stock_left })
    order ← insert_order (queued_order user_id input reads activity)
    pure (order, stock_left)

  -- `UpdateColumn("stock", gorm.Expr("stock - ?", 1))`, and why it may touch no row.
  unfoldable pub take_stock : ℕ → ℤ → Action (World E) (Unit {0})
  take_stock activity_id now = do
    affected ←
        execute
          (λ w.
            E.activities.update_column (is_takeable activity_id now)
              (λ a. record a { stock = a.stock -ℤ pos 1 }) w.db.activities)
          (put_activities E)
    λ w. if ltb 0 affected then (ok tt, w) else elim (find_activity activity_id w) [
      | ok current ↦
          (err (if leb_ℤ current.stock (pos 0) then sold_out else activity_not_available), w)
      | err _ ↦ (err activity_not_available, w)
    ]

  -- The transaction of `createOrderWithRedis`.
  unfoldable pub place_order_tx : ℕ → CreateOrderInput → Reads → Activity → Action (World E) Order
  unfolding refuse_second_order take_stock insert_order
  place_order_tx user_id input reads activity = do
    refuse_second_order user_id input.activity_id
    take_stock input.activity_id reads.update_now
    insert_order (queued_order user_id input reads activity)

  abbrev pub reject : ℕ → Error → World E → World E
  reject user_id e = log E (codes "create_order_rejected") [] user_id failed (error_text e)

  abbrev pub accept : OrderService → Text → ℕ → Order → ℤ → World E → World E
  accept S action user_id order stock_left w =
      log E action order.order_no user_id success (codes "stock_left=" ++ print_int stock_left)
        (publish_order_task E S order.order_no w)

  unfoldable pub create_order_with_db :
      OrderService → ℕ → CreateOrderInput → Reads → Action (World E) (Order × ℤ)
  unfolding create_order_tx log error_text print_int publish_order_task
  create_order_with_db S user_id input reads w =
      report (reject user_id)
        (λ (order, left). accept S (codes "stock_reserved") user_id order left)
        (transaction E (create_order_tx user_id input reads) w)

  -- The transaction behind a reservation; the reservation of a refused order is given back, and a
  -- failure to do so is ignored.
  unfoldable pub place_reserved :
      OrderService → ℕ → CreateOrderInput → Reads → Activity → ℤ → Action (World E) (Order × ℤ)
  unfolding place_order_tx release log error_text print_int publish_order_task
  place_reserved S user_id input reads activity stock_left w =
      let (r, w') = transaction E (place_order_tx user_id input reads activity) w in
      elim r [
        | ok order ↦ (
          ok (order, stock_left),
          accept S (codes "stock_reserved_redis") user_id order stock_left w',
        )
        | err e ↦ (err e, reject user_id e (release E input.activity_id user_id w').1)
      ]

  unfoldable pub reserve : ℤ → Activity → ℕ → Action (World E) ℤ
  reserve now activity user_id w =
      let (r, s) = E.cache.reserve now activity user_id w.cache in (r, record w { cache = s })

  -- The part of `createOrderWithRedis` before its transaction.
  unfoldable pub reserve_activity : ℕ → CreateOrderInput → Reads → Action (World E) (Activity × ℤ)
  unfolding ensure_activity_orderable reserve
  reserve_activity user_id input reads = do
    activity ← query_or activity_not_found (find_activity input.activity_id)
    query (λ _. ensure_activity_orderable activity reads.now)
    left ← reserve reads.now activity user_id
    pure (activity, left)

  unfoldable pub create_order_with_redis :
      OrderService → ℕ → CreateOrderInput → Reads → Action (World E) (Order × ℤ)
  unfolding reserve_activity place_reserved
  create_order_with_redis S user_id input reads w =
      let (r, w') = reserve_activity user_id input reads w in
      elim r [
        | ok (activity, left) ↦ place_reserved S user_id input reads activity left w'
        | err e ↦ (err e, reject user_id e w')
      ]

  unfoldable pub create_order_context :
      OrderService → ℕ → CreateOrderInput → Reads → Action (World E) (Order × ℤ)
  unfolding create_order_with_db create_order_with_redis
  create_order_context S user_id input reads w = elim reads.context_error [
    | some e ↦ (err e, w)
    | none ↦
        if S.redis_stock
        then create_order_with_redis S user_id (named_request input reads) reads w
        else create_order_with_db S user_id (named_request input reads) reads w
  ]
