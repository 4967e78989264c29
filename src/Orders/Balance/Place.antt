-- ===== src/Orders/Balance/Place.antt =====
-- Placing an order, with and without the cache, keeps the account of every activity.
use go_order_lab.Prelude.{
  ℕ, ◌<◌, ◌≡◌, refl, subst, true, false, some, ok, ℤ, pos, ◌+ℤ◌, ◌-ℤ◌, ◌≤ℤ◌, leb_ℤ, IsInt64, wrap64,
  wrap64_id, int_laws, arith, ◌==◌, ==_iff, if◌then◌else◌, Result-cases, inl, inr, Bool-cases,
}
use go_order_lab.Store.Rows.{has_id, find_first}
use go_order_lab.Store.Effects.{save_sum, create_sum, at_id_found, any_located, update_where_sum}
use go_order_lab.Store.Sums.{sum_by}
use go_order_lab.Model.{Activity, activity_columns, Order, queued}
use go_order_lab.Env.{Env, Db, World, create_order}
use go_order_lab.Orders.Create.{is_takeable}
use go_order_lab.Orders.Balance.{
  Balanced, stock_part, taken_part, stock_total, taken_total, taken_total_nonneg,
}

-- A unit that is in stock can be taken without wrap-around.
take_unit :
    (stock taken supply : ℤ)
    → leb_ℤ stock (pos 0) ≡ false
    → pos 0 ≤ℤ taken
    → stock +ℤ taken ≡ supply
    → IsInt64 supply
    → IsInt64 (stock -ℤ pos 1)
take_unit stock taken supply some_left h e i = grind int_laws

takeable_key : (j : ℕ) (now : ℤ) (a : Activity) → is_takeable j now a ≡ true → a.id ≡ j
takeable_key j now a h = ground arith

takeable_stock : (j : ℕ) (now : ℤ) (a : Activity) → is_takeable j now a ≡ true → pos 1 ≤ℤ a.stock
takeable_stock j now a h = ground arith

module _ (E : Env) (k : ℕ) (supply : ℤ) (fits : IsInt64 supply) where
  -- One unit less in stock and one queued order more.
  pub placed-Balanced :
      (d : Db E) (a : Activity) (order stored : Order) (s : E.activities.State) (t : E.orders.State)
      → order.activity_id ≡ a.id
      → order.status ≡ queued
      → leb_ℤ a.stock (pos 0) ≡ false
      → E.activities.first (has_id activity_columns a.id) d.activities ≡ ok a
      → E.activities.save (record a { stock = wrap64 (a.stock -ℤ pos 1) }) d.activities ≡ ok (tt, s)
      → E.orders.create order d.orders ≡ ok (stored, t)
      → Balanced E k supply d
      → Balanced E k supply (record d { activities = s; orders = t })
  placed-Balanced d a order stored s t key status left found saved made b =
      let present = E.activities.first_ok (has_id activity_columns a.id) d.activities a found in
      let exchange =
        save_sum E.activities (stock_part k) (λ t r. refl) (has_id activity_columns a.id) a
          (record a { stock = wrap64 (a.stock -ℤ pos 1) }) d.activities s found refl saved in
      let taken = create_sum E.orders (taken_part k) (λ i t r. refl) order d.orders stored t made in
      elim (Bool-cases (a.id == k)) [
        | inr other ↦ record {
          in_stock = grind (int_laws, exchange, b.in_stock);
          accounted = grind (int_laws, exchange, taken, b.accounted);
        }
        | inl same ↦
            (let e : a.id ≡ k = (==_iff a.id k).0 same in
              let whole : stock_total E k d ≡ a.stock =
                at_id_found activity_columns k (λ b. b.stock) (E.activities.rows d.activities) a
                  (E.activities.unique d.activities)
                  (subst
                    (λ i.
                      find_first (has_id activity_columns i) (E.activities.rows d.activities)
                      ≡ some a)
                    e present) in
              let exact : wrap64 (a.stock -ℤ pos 1) ≡ a.stock -ℤ pos 1 = wrap64_id _ (
                take_unit a.stock (taken_total E k d) supply left (taken_total_nonneg E k d)
                  (rw whole at b.accounted) fits) in
              record {
                in_stock = grind (int_laws, exchange, whole, exact, b.in_stock);
                accounted = grind (int_laws, exchange, whole, exact, taken, b.accounted);
              })
      ]

  -- The conditional UPDATE, where it touched a row.
  taken_stock :
      (j : ℕ) (now : ℤ) (d : Db E) (n : ℕ) (s : E.activities.State)
      → E.activities.update_column
          (is_takeable j now)
          (λ a. record a { stock = a.stock -ℤ pos 1 })
          d.activities
        ≡ ok (n, s)
      → 0 < n
      → (sum_by (stock_part k) (E.activities.rows s) +ℤ (if j == k then pos 1 else pos 0)
          ≡ stock_total E k d)
        × (j ≡ k → pos 1 ≤ℤ stock_total E k d)
  taken_stock j now d n s e touched =
      let p = is_takeable j now in
      let f : Activity → Activity = λ a. record a { stock = a.stock -ℤ pos 1 } in
      let rows = E.activities.update_column_ok p f d.activities n s e in
      let hit = E.activities.affected_some p f d.activities n s e touched in
      let unique = E.activities.unique d.activities in
      let (a, found, holds) =
        any_located activity_columns k j (λ a. a.stock) p f (E.activities.rows d.activities)
          (takeable_key j now) unique hit in
      (
        rw rows (
            update_where_sum activity_columns k j (λ a. a.stock) p f (pos 1)
              (E.activities.rows d.activities) (takeable_key j now) (λ r. refl)
              (λ r h. grind int_laws) unique hit),
        λ same.
            rw
              (at_id_found activity_columns k (λ b. b.stock) (E.activities.rows d.activities) a
                unique
                (subst
                  (λ i.
                    find_first (has_id activity_columns i) (E.activities.rows d.activities)
                    ≡ some a)
                  same found))
              (takeable_stock j now a holds),
      )

  reserved-Balanced :
      (d : Db E) (j : ℕ) (order : Order) (s : E.activities.State) (t : E.orders.State)
      → order.activity_id ≡ j
      → order.status ≡ queued
      → sum_by (stock_part k) (E.activities.rows s) +ℤ (if j == k then pos 1 else pos 0)
        ≡ stock_total E k d
      → (j ≡ k → pos 1 ≤ℤ stock_total E k d)
      → sum_by (taken_part k) (E.orders.rows t) ≡ taken_total E k d +ℤ taken_part k order
      → Balanced E k supply d
      → Balanced E k supply (record d { activities = s; orders = t })
  reserved-Balanced d j order s t key status less positive more b = elim (Bool-cases (j == k)) [
    | inr other ↦ record {
      in_stock = grind (int_laws, less, b.in_stock);
      accounted = grind (int_laws, less, more, b.accounted);
    }
    | inl same ↦
        (let enough = positive ((==_iff j k).0 same) in
          record {
            in_stock = grind (int_laws, less, enough);
            accounted = grind (int_laws, less, more, b.accounted);
          })
  ]

  -- The same as one step: the UPDATE and the new order.
  pub taken-Balanced :
      (d : Db E) (j : ℕ) (now : ℤ) (n : ℕ) (order stored : Order) (s : E.activities.State)
      (t : E.orders.State)
      → order.activity_id ≡ j
      → order.status ≡ queued
      → E.activities.update_column
          (is_takeable j now)
          (λ a. record a { stock = a.stock -ℤ pos 1 })
          d.activities
        ≡ ok (n, s)
      → 0 < n
      → E.orders.create order d.orders ≡ ok (stored, t)
      → Balanced E k supply d
      → Balanced E k supply (record d { activities = s; orders = t })
  taken-Balanced d j now n order stored s t key status touched some_row made b =
      let (less, positive) = taken_stock j now d n s touched some_row in
      let more = create_sum E.orders (taken_part k) (λ i t r. refl) order d.orders stored t made in
      reserved-Balanced d j order s t key status less positive more b

module _ (E : Env) (k : ℕ) (supply : ℤ) (k_pos : 0 < k) where
  -- The order of a cart belongs to no activity.
  pub create_cart_order-Balanced :
      (order : Order) (w : World E)
      → order.activity_id ≡ 0
      → Balanced E k supply w.db
      → Balanced E k supply (create_order E order w).1.db
  create_cart_order-Balanced order w no_activity b =
      elim (Result-cases (E.orders.create order w.db.orders)) [
        | inr (e, refused) ↦ ground arith
        | inl ((stored, t), made) ↦
            (let more =
                create_sum E.orders (taken_part k) (λ i t r. refl) order w.db.orders stored t
                  made in
              let kept : Balanced E k supply (record (w.db) { orders = t }) = record {
                in_stock = b.in_stock;
                accounted = grind (int_laws, more, b.accounted);
              } in
              ground (arith, kept))
      ]
