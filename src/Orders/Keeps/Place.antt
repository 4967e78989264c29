-- ===== src/Orders/Keeps/Place.antt =====
-- What the transactions that place an order keep, `CreateOrderContext` keeps.
use go_order_lab.Prelude.{
  ℕ, ◌≡◌, refl, false, ok, Error, ℤ, pos, arith, Text, Result-cases, Option-cases, inl, inr,
}
use go_order_lab.Env.{Env, Db, World, transaction}
use go_order_lab.Env.Laws.{if-keeps, log-keeps, transaction-keeps, report-keeps}
use go_order_lab.Orders.Service.{OrderService}
use go_order_lab.Orders.Keeps.{Keeps}
use go_order_lab.Orders.Create.Frame.{
  find_activity_key, allowed, reserve_activity_frame, reserve_activity_ok,
}
use go_order_lab.Store.Rows.{has_id}
use go_order_lab.Model.{Activity, activity_columns, Order}
use go_order_lab.Orders.Publish.Frame.{publish_order_task-keeps}
use go_order_lab.Orders.Create.{
  CreateOrderInput, Reads, find_activity, create_order_tx, place_order_tx, create_order_with_db,
  create_order_with_redis, place_reserved, reserve_activity, create_order_context, reject, accept,
  named_request,
}
use go_order_lab.Prelude.{◌<◌, ◌-ℤ◌, leb_ℤ, wrap64, subst, sym}
use go_order_lab.Store.Rows.{any}
use go_order_lab.Orders.Create.{placed_by, queued_order, is_takeable}

module _ (E : Env) (S : OrderService) (J : Db E → Type 0) (K : Keeps E S J) where
  create_order_tx-keeps :
      (user_id : ℕ) (input : CreateOrderInput) (reads : Reads) (w : World E) (r : Order × ℤ)
      → (create_order_tx E user_id input reads w).0 ≡ ok r
      → J w.db
      → J (create_order_tx E user_id input reads w).1.db
  unfolding create_order_tx
  create_order_tx-keeps user_id input reads w r done b =
      elim (Result-cases (find_activity E input.activity_id w)) [
        | inr (e, missing) ↦ absurd (ground arith)
        | inl (a, found) ↦
            (let key = find_activity_key E input.activity_id w a found in
              let found' : E.activities.first (has_id activity_columns a.id) w.db.activities
                  ≡ ok a =
                subst (λ i. E.activities.first (has_id activity_columns i) w.db.activities ≡ ok a)
                  (sym key) found in
              elim (Result-cases (
                E.activities.save (record a { stock = wrap64 (a.stock -ℤ pos 1) })
                  w.db.activities)) [
                    | inr (e, failed) ↦ absurd (ground arith)
                    | inl ((u, s), saved) ↦
                        elim (Result-cases
                          (E.orders.create (queued_order user_id input reads a) w.db.orders)) [
                            | inr (e, refused) ↦ absurd (ground arith)
                            | inl ((stored, t), made) ↦
                                (let left : leb_ℤ a.stock (pos 0) ≡ false = ground arith in
                                  let n_ok = allowed E user_id input.activity_id w (ground arith) in
                                  ground (
                                    arith,
                                    K.placed w.db a (queued_order user_id input reads a) stored s t
                                        refl refl left found' saved made
                                        (subst
                                          (λ i.
                                            any (placed_by user_id i) (E.orders.rows w.db.orders)
                                            ≡ false)
                                          (sym key) n_ok)
                                        b,
                                  ))
                          ]
                  ])
      ]

  place_order_tx-keeps :
      (user_id : ℕ) (input : CreateOrderInput) (reads : Reads) (activity : Activity) (w : World E)
      (order : Order)
      → activity.id ≡ input.activity_id
      → (place_order_tx E user_id input reads activity w).0 ≡ ok order
      → J w.db
      → J (place_order_tx E user_id input reads activity w).1.db
  unfolding place_order_tx
  place_order_tx-keeps user_id input reads activity w order key done b =
      let j = input.activity_id in
      let p = is_takeable j reads.update_now in
      let f : Activity → Activity = λ a. record a { stock = a.stock -ℤ pos 1 } in
      let new = queued_order user_id input reads activity in
      elim (Result-cases (E.activities.update_column p f w.db.activities)) [
        | inr (e, failed) ↦ absurd (ground arith)
        | inl ((n, s), touched) ↦ elim (Result-cases (E.orders.create new w.db.orders)) [
          | inr (e, refused) ↦ absurd (ground arith)
          | inl ((stored, t), made) ↦
              (let some_row : 0 < n = ground arith in
                let n_ok = allowed E user_id input.activity_id w (ground arith) in
                ground (
                  arith,
                  K.reserved w.db j reads.update_now n new stored s t key refl touched some_row made
                      (subst (λ i. any (placed_by user_id i) (E.orders.rows w.db.orders) ≡ false)
                        (sym key) n_ok)
                      b,
                ))
        ]
      ]

  rejected : (user_id : ℕ) (e : Error) (w : World E) → J w.db → J (reject E user_id e w).db
  rejected user_id e w = log-keeps E J K.quiet _ _ _ _ _ w

  accepted :
      (action : Text) (user_id : ℕ) (order : Order) (left : ℤ) (w : World E)
      → J w.db
      → J (accept E S action user_id order left w).db
  accepted action user_id order left w h =
      log-keeps E J K.quiet _ _ _ _ _ _ (publish_order_task-keeps E J K.quiet S order.order_no w h)

  create_order_with_db-keeps :
      (user_id : ℕ) (input : CreateOrderInput) (reads : Reads) (w : World E)
      → J w.db
      → J (create_order_with_db E S user_id input reads w).1.db
  unfolding create_order_with_db
  create_order_with_db-keeps user_id input reads w b =
      report-keeps E J _ _ (transaction E (create_order_tx E user_id input reads) w)
        (rejected user_id) (λ r v. accepted _ user_id r.0 r.1 v)
        (transaction-keeps E J (create_order_tx E user_id input reads) w b
          (λ r done. create_order_tx-keeps user_id input reads w r done b))

  place_reserved-keeps :
      (user_id : ℕ) (input : CreateOrderInput) (reads : Reads) (activity : Activity) (left : ℤ)
      (w : World E)
      → activity.id ≡ input.activity_id
      → J w.db
      → J (place_reserved E S user_id input reads activity left w).1.db
  unfolding place_reserved
  place_reserved-keeps user_id input reads activity left w key b =
      let m = place_order_tx E user_id input reads activity in
      let kept =
        transaction-keeps E J m w b
          (λ r done. place_order_tx-keeps user_id input reads activity w r key done b) in
      elim (Result-cases (transaction E m w).0) [
        | inl (order, e) ↦ rw (e, place_reserved) (accepted _ user_id order left _ kept)
        | inr (x, e) ↦ rw (e, place_reserved) (rejected user_id x _ kept)
      ]

  create_order_with_redis-keeps :
      (user_id : ℕ) (input : CreateOrderInput) (reads : Reads) (w : World E)
      → J w.db
      → J (create_order_with_redis E S user_id input reads w).1.db
  unfolding create_order_with_redis
  create_order_with_redis-keeps user_id input reads w b =
      elim (Result-cases (reserve_activity E user_id input reads w).0) [
        | inl ((a, left), e) ↦
            (let (found, same) = reserve_activity_ok E user_id input reads w a left e in
              rw (e, create_order_with_redis)
                (place_reserved-keeps user_id input reads a left _
                  (find_activity_key E input.activity_id w a found) (rw same b)))
        | inr (x, e) ↦
            rw (e, create_order_with_redis)
              (rejected user_id x _ (rw (reserve_activity_frame E user_id input reads w) b))
      ]

  -- An attempt to place an order, whatever its outcome and by either way.
  pub create_order_context-keeps :
      (user_id : ℕ) (input : CreateOrderInput) (reads : Reads) (w : World E)
      → J w.db
      → J (create_order_context E S user_id input reads w).1.db
  unfolding create_order_context
  create_order_context-keeps user_id input reads w b = elim (Option-cases reads.context_error) [
    | inr (x, e) ↦ rw (e, create_order_context) b
    | inl e ↦
        rw (e, create_order_context)
          (if-keeps E J S.redis_stock
            (create_order_with_redis E S user_id (named_request input reads) reads w)
            (create_order_with_db E S user_id (named_request input reads) reads w)
            (create_order_with_redis-keeps user_id (named_request input reads) reads w b)
            (create_order_with_db-keeps user_id (named_request input reads) reads w b))
  ]
