-- ===== src/Orders/Effect/Create.antt =====
-- What placing an order has done when it reports no error.
use go_order_lab.Prelude.{
  ℕ, ◌≡◌, refl, subst, ap, ◌∙◌, sym, List, Result, ok, ℤ, Text, arith, Result-cases, Option-cases,
  Bool-cases, inl, inr,
}
use go_order_lab.Store.Rows.{has_id}
use go_order_lab.Model.{Activity, activity_columns, Order}
use go_order_lab.Env.{Env, Db, World, transaction, report}
use go_order_lab.Env.Laws.{transaction_ok, log-keeps}
use go_order_lab.Orders.Service.{OrderService, ensure_activity_orderable}
use go_order_lab.Orders.Publish.Frame.{publish_order_task-keeps}
use go_order_lab.Orders.Create.{
  CreateOrderInput, Reads, create_order_tx, place_order_tx, create_order_with_db,
  create_order_with_redis, place_reserved, reserve_activity, create_order_context, accept,
  named_request,
}
use go_order_lab.Orders.Create.Frame.{find_activity_key, reserve_activity_ok}
use go_order_lab.Orders.Effect.Placed.{
  Placed, Offered, create_order_tx-Placed, place_order_tx-Placed,
}

module _ (E : Env) (user_id : ℕ) (reads : Reads) where
  reserve_activity-orderable :
      (input : CreateOrderInput) (w : World E) (a : Activity) (left : ℤ)
      → (reserve_activity E user_id input reads w).0 ≡ ok (a, left)
      → ensure_activity_orderable a reads.now ≡ ok tt
  unfolding reserve_activity
  reserve_activity-orderable input w a left done = ground arith

  -- What the log lines and the publication leave.
  settled :
      (S : OrderService) (activity_id : ℕ) (xs : List Order) (action : Text) (order : Order)
      (left : ℤ) (w : World E)
      → Placed E user_id reads activity_id order xs (E.orders.rows w.db.orders)
      → Placed E user_id reads activity_id order xs
          (E.orders.rows (accept E S action user_id order left w).db.orders)
  settled S activity_id xs action order left w h =
      let J : Db E → Type 0 =
        λ d. Placed E user_id reads activity_id order xs (E.orders.rows d.orders) in
      log-keeps E J (λ d s k. k) _ _ _ _ _ _
        (publish_order_task-keeps E J (λ d s k. k) S order.order_no w h)

  module _ (S : OrderService) where
    -- The result on the world that the request leaves.
    abbrev pub Created : ℕ → Order → World E → World E → Type 0
    Created activity_id order w w' =
        Placed E user_id reads activity_id order (E.orders.rows w.db.orders)
          (E.orders.rows w'.db.orders)
        × Offered E user_id reads activity_id order w.db

    with_db-Created :
        (input : CreateOrderInput) (w : World E) (order : Order) (left : ℤ)
        → (create_order_with_db E S user_id input reads w).0 ≡ ok (order, left)
        → Created input.activity_id order w (create_order_with_db E S user_id input reads w).1
    unfolding create_order_with_db
    with_db-Created input w order left h =
        let m = create_order_tx E user_id input reads in
        elim (Result-cases (transaction E m w).0) [
          | inr (x, e) ↦ absurd (ground arith)
          | inl ((o, n), e) ↦
              (let (done, last) = transaction_ok E m w (o, n) e in
                let same : o ≡ order = ground arith in
                let (placed, offered) = create_order_tx-Placed E user_id reads input w o n done in
                subst
                  (λ q.
                    Created input.activity_id q w
                      (create_order_with_db E S user_id input reads w).1)
                  same
                  (
                    rw (create_order_with_db, e, report)
                        (settled S input.activity_id _ _ o n (transaction E m w).1
                          (rw last placed)),
                    offered,
                  ))
        ]

    place_reserved-Created :
        (input : CreateOrderInput) (a : Activity) (left n : ℤ) (w : World E) (order : Order)
        → a.id ≡ input.activity_id
        → (place_reserved E S user_id input reads a left w).0 ≡ ok (order, n)
        → Placed E user_id reads input.activity_id order
            (E.orders.rows w.db.orders)
            (E.orders.rows (place_reserved E S user_id input reads a left w).1.db.orders)
          × (order.amount ≡ a.price)
    unfolding place_reserved
    place_reserved-Created input a left n w order key h =
        let m = place_order_tx E user_id input reads a in
        elim (Result-cases (transaction E m w).0) [
          | inr (x, e) ↦ absurd (ground arith)
          | inl (o, e) ↦
              (let (done, last) = transaction_ok E m w o e in
                let same : o ≡ order = ground arith in
                let (placed, price) = place_order_tx-Placed E user_id reads input a w o key done in
                subst
                  (λ q.
                    Placed E user_id reads input.activity_id q (E.orders.rows w.db.orders)
                      (E.orders.rows (place_reserved E S user_id input reads a left w).1.db.orders)
                    × (q.amount ≡ a.price))
                  same
                  (
                    rw (place_reserved, e)
                        (settled S input.activity_id _ _ o left (transaction E m w).1
                          (rw last placed)),
                    price,
                  ))
        ]

    with_redis-Created :
        (input : CreateOrderInput) (w : World E) (order : Order) (left : ℤ)
        → (create_order_with_redis E S user_id input reads w).0 ≡ ok (order, left)
        → Created input.activity_id order w (create_order_with_redis E S user_id input reads w).1
    unfolding create_order_with_redis
    with_redis-Created input w order left h =
        elim (Result-cases (reserve_activity E user_id input reads w).0) [
          | inr (x, e) ↦ absurd (ground arith)
          | inl ((a, n), e) ↦
              (let w' = (reserve_activity E user_id input reads w).1 in
                let (found, same) = reserve_activity_ok E user_id input reads w a n e in
                let (placed, price) =
                  place_reserved-Created input a n left w' order
                    (find_activity_key E input.activity_id w a found)
                    (rw (create_order_with_redis, e) at h) in
                (
                  rw (create_order_with_redis, e)
                      (subst
                        (λ d.
                          Placed E user_id reads input.activity_id order (E.orders.rows d.orders) (
                            E.orders.rows
                              (place_reserved E S user_id input reads a n w').1.db.orders))
                        same placed),
                  record {
                    activity = a;
                    found =
                        E.activities.first_ok (has_id activity_columns input.activity_id)
                          w.db.activities a found;
                    orderable = reserve_activity-orderable input w a n e;
                    price = price;
                  },
                ))
        ]

    named_activity :
        (input : CreateOrderInput) → (named_request input reads).activity_id ≡ input.activity_id
    named_activity input = ground arith

    -- An order that is placed, behind the cache or without it, is a new row at the end of the table:
    -- the first order of this user for the activity, QUEUED, at the price of the activity, which was
    -- published and within its time.
    pub create_order_context-Created :
        (input : CreateOrderInput) (w : World E) (order : Order) (left : ℤ)
        → (create_order_context E S user_id input reads w).0 ≡ ok (order, left)
        → Created input.activity_id order w (create_order_context E S user_id input reads w).1
    unfolding create_order_context
    create_order_context-Created input w order left h =
        let named = named_request input reads in
        let whole = create_order_context E S user_id input reads w in
        let at_named : ((m : Result (Order × ℤ) × World E)
            → whole ≡ m
            → Created named.activity_id order w m.1
            → Created input.activity_id order w whole.1) =
          λ m last c.
            subst (λ i. Created i order w whole.1) (named_activity input)
              (subst (λ q. Created named.activity_id order w q.1) (sym last) c) in
        elim (Option-cases reads.context_error) [
          | inr (x, e) ↦ absurd (ground arith)
          | inl e ↦ elim (Bool-cases S.redis_stock) [
            | inl on ↦
                (let last : whole ≡ create_order_with_redis E S user_id named reads w =
                    rw (create_order_context, e, on) refl in
                  at_named _ last
                    (with_redis-Created named w order left (ap (λ m. m.0) (sym last) ∙ h)))
            | inr off ↦
                (let last : whole ≡ create_order_with_db E S user_id named reads w =
                    rw (create_order_context, e, off) refl in
                  at_named _ last
                    (with_db-Created named w order left (ap (λ m. m.0) (sym last) ∙ h)))
          ]
        ]
