-- ===== src/Orders/Effect/Placed.antt =====
-- What the transactions that place an order have done when they succeed.
use go_order_lab.Prelude.{
  ℕ, ◌≡◌, subst, ap, ◌∙◌, false, some, List, [], ◌∷◌, ◌++◌, ok, ℤ, arith, Result-cases, inl, inr,
}
use go_order_lab.Store.Rows.{any, find_first, has_id}
use go_order_lab.Model.{Activity, activity_columns, Order, queued}
use go_order_lab.Env.{Env, Db, World}
use go_order_lab.Orders.Service.{ensure_activity_orderable}
use go_order_lab.Orders.Create.{
  CreateOrderInput, Reads, placed_by, queued_order, find_activity, create_order_tx, place_order_tx,
}
use go_order_lab.Orders.Create.Frame.{find_activity_key, allowed}

module _ (E : Env) (user_id : ℕ) (reads : Reads) where
  -- The new row, its user's first of the activity, at the activity's price.
  pub record Placed (activity_id : ℕ) (order : Order) (xs ys : List Order) : Type 0 where
    pub appended : ys ≡ xs ++ order ∷ []
    pub first_order : any (placed_by user_id activity_id) xs ≡ false
    pub owner : order.user_id ≡ user_id
    pub of_activity : order.activity_id ≡ activity_id
    pub waits : order.status ≡ queued

  -- The activity that the order is of, when it was looked at.
  pub record Offered (activity_id : ℕ) (order : Order) (d : Db E) : Type 0 where
    pub activity : Activity
    pub found :
        find_first (has_id activity_columns activity_id) (E.activities.rows d.activities)
        ≡ some activity
    pub orderable : ensure_activity_orderable activity reads.now ≡ ok tt
    pub price : order.amount ≡ activity.price

  made_row :
      (input : CreateOrderInput) (a : Activity) (s t : E.orders.State) (order : Order)
      → a.id ≡ input.activity_id
      → any (placed_by user_id input.activity_id) (E.orders.rows s) ≡ false
      → E.orders.create (queued_order user_id input reads a) s ≡ ok (order, t)
      → Placed input.activity_id order (E.orders.rows s) (E.orders.rows t)
  made_row input a s t order key free made =
      let (row, rows, _) = E.orders.create_ok (queued_order user_id input reads a) s order t made in
      record {
        appended = rows;
        first_order = free;
        owner = ap (λ o. o.user_id) row;
        of_activity = ap (λ o. o.activity_id) row ∙ key;
        waits = ap (λ o. o.status) row;
      }

  pub create_order_tx-Placed :
      (input : CreateOrderInput) (w : World E) (order : Order) (left : ℤ)
      → (create_order_tx E user_id input reads w).0 ≡ ok (order, left)
      → Placed input.activity_id order
          (E.orders.rows w.db.orders)
          (E.orders.rows (create_order_tx E user_id input reads w).1.db.orders)
        × Offered input.activity_id order w.db
  unfolding create_order_tx
  create_order_tx-Placed input w order left done =
      elim (Result-cases (find_activity E input.activity_id w)) [
        | inr (e, missing) ↦ absurd (ground arith)
        | inl (a, found) ↦
            (let key = find_activity_key E input.activity_id w a found in
              elim (Result-cases
                (E.orders.create (queued_order user_id input reads a) w.db.orders)) [
                  | inr (e, refused) ↦ absurd (ground arith)
                  | inl ((stored, t), made) ↦
                      (let free = allowed E user_id input.activity_id w (ground arith) in
                        let (row, _, _) =
                          E.orders.create_ok (queued_order user_id input reads a) w.db.orders stored
                            t made in
                        let same : stored ≡ order = ground arith in
                        let placed = made_row input a w.db.orders t stored key free made in
                        let last : (create_order_tx E user_id input reads w).1.db.orders ≡ t =
                          ground arith in
                        (
                          rw last (
                              subst
                                (λ o.
                                  Placed input.activity_id o (E.orders.rows w.db.orders)
                                    (E.orders.rows t))
                                same placed),
                          record {
                            activity = a;
                            found =
                                E.activities.first_ok (has_id activity_columns input.activity_id)
                                  w.db.activities a found;
                            orderable = ground arith;
                            price = subst (λ o. o.amount ≡ a.price) same (ap (λ o. o.amount) row);
                          },
                        ))
                ])
      ]

  pub place_order_tx-Placed :
      (input : CreateOrderInput) (a : Activity) (w : World E) (order : Order)
      → a.id ≡ input.activity_id
      → (place_order_tx E user_id input reads a w).0 ≡ ok order
      → Placed input.activity_id order
          (E.orders.rows w.db.orders)
          (E.orders.rows (place_order_tx E user_id input reads a w).1.db.orders)
        × (order.amount ≡ a.price)
  unfolding place_order_tx
  place_order_tx-Placed input a w order key done =
      elim (Result-cases (E.orders.create (queued_order user_id input reads a) w.db.orders)) [
        | inr (e, refused) ↦ absurd (ground arith)
        | inl ((stored, t), made) ↦
            (let free = allowed E user_id input.activity_id w (ground arith) in
              let (row, _, _) =
                E.orders.create_ok (queued_order user_id input reads a) w.db.orders stored t made in
              let same : stored ≡ order = ground arith in
              let placed = made_row input a w.db.orders t stored key free made in
              let last : (place_order_tx E user_id input reads a w).1.db.orders ≡ t =
                ground arith in
              (
                rw last (
                    subst
                      (λ o.
                        Placed input.activity_id o (E.orders.rows w.db.orders) (E.orders.rows t))
                      same placed),
                subst (λ o. o.amount ≡ a.price) same (ap (λ o. o.amount) row),
              ))
      ]
