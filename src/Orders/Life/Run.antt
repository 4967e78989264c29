-- ===== src/Orders/Life/Run.antt =====
-- Every history of requests, workers' rounds and compensations is a history of the orders' table.
use go_order_lab.Prelude.{
  ℕ, ◌<◌, ◌≤◌, ◌≡◌, refl, subst, sym, ap, ◌∙◌, Bool, false, List, ok, arith, ◌++◌, ◌∷◌, [],
  Result-cases, inl, inr,
}
use go_order_lab.Store.Rows.{any}
use go_order_lab.Store.Evolution.{Evolves}
use go_order_lab.Model.{Order, OrderStatus, queued, wait_pay}
use go_order_lab.Env.{Env, Db, World, create_order}
use go_order_lab.Orders.Service.{OrderService}
use go_order_lab.Orders.Create.{placed_by}
use go_order_lab.Orders.Run.{Request, run}
use go_order_lab.Orders.Life.{
  Moves, Later, Step, advance, touch, place, place_cart, History, start, next,
}
use go_order_lab.Orders.Life.Past.{History-Evolves, orders_of, History-orders_of}
use go_order_lab.Orders.Balance.Restore.{restore_stock_orders}
use go_order_lab.Orders.Keeps.{Keeps}
use go_order_lab.Orders.Keeps.Run.{run-keeps}

module _ (E : Env) (S : OrderService) where
  abbrev rows_of : Db E → List Order
  rows_of d = E.orders.rows d.orders

  module _ (xs : List Order) where
    -- A new row that satisfies what the steps ask for.
    place_row :
        (order stored : Order) (s t : E.orders.State)
        → E.orders.create order s ≡ ok (stored, t)
        → ((o : Order)
            → o.status ≡ order.status
            → o.user_id ≡ order.user_id
            → o.activity_id ≡ order.activity_id
            → Step (E.orders.rows s) (E.orders.rows s ++ o ∷ []))
        → History xs (E.orders.rows s)
        → History xs (E.orders.rows t)
    place_row order stored s t made step past =
        let (row, rows, _) = E.orders.create_ok order s stored t made in
        subst (History xs) (sym rows) (
          next (E.orders.rows s) _ past (
            step stored (ap (λ o. o.status) row) (ap (λ o. o.user_id) row)
              (ap (λ o. o.activity_id) row)))

    place_activity :
        (order stored : Order) (s t : E.orders.State)
        → E.orders.create order s ≡ ok (stored, t)
        → order.status ≡ queued
        → any (placed_by order.user_id order.activity_id) (E.orders.rows s) ≡ false
        → History xs (E.orders.rows s)
        → History xs (E.orders.rows t)
    place_activity order stored s t made status free =
        place_row order stored s t made
          (λ o st u a. place (E.orders.rows s) o (st ∙ status) (rw (u, a) free))

    place_cart_row :
        (order : Order) (w : World E)
        → order.activity_id ≡ 0
        → order.status ≡ wait_pay
        → History xs (rows_of w.db)
        → History xs (rows_of (create_order E order w).1.db)
    place_cart_row order w no_activity status past =
        elim (Result-cases (E.orders.create order w.db.orders)) [
          | inr (e, refused) ↦ ground arith
          | inl ((stored, t), made) ↦
              (let past' =
                  place_row order stored w.db.orders t made
                    (λ o st u a. place_cart (rows_of w.db) o (st ∙ status) (a ∙ no_activity))
                    past in
                ground (arith, past'))
        ]

    -- A Save of a found order with another status.
    move_row :
        (p : Order → Bool) (o : Order) (st : OrderStatus) (s s' : E.orders.State)
        → Moves o.status st
        → E.orders.first p s ≡ ok o
        → E.orders.save (record o { status = st }) s ≡ ok (tt, s')
        → History xs (E.orders.rows s)
        → History xs (E.orders.rows s')
    move_row p o st s s' move found saved past =
        subst (History xs) (sym (E.orders.save_ok _ s s' saved)) (
          next (E.orders.rows s) _ past (
            advance (E.orders.rows s) p o (record (o.base) { updated_at = E.orders.clock s }) st
              (E.orders.unique s) (E.orders.first_ok p s o found) refl move))

    History-Keeps : Keeps E S (λ d. History xs (rows_of d))
    History-Keeps = record {
      quiet = λ d s h. h;
      products_aside = λ d s h. h;
      user_coupons_aside = λ d s h. h;
      order_items_aside = λ d s h. h;
      cart_items_aside = λ d s h. h;
      payments_aside = λ d s h. h;
      placed = λ d a order stored s t key status left found saved made free.
          place_activity order stored d.orders t made status free;
      reserved = λ d j now n order stored s t key status touched some_row made free.
          place_activity order stored d.orders t made status free;
      cart = place_cart_row;
      settle = λ p order st w s' opened settled move found restored saved.
          move_row p order st w.db.orders s' move found (
            subst (λ o. E.orders.save (record order { status = st }) o ≡ ok (tt, s'))
              (restore_stock_orders E S order w) saved);
      hold = λ p order st d s' held holds move found saved.
          move_row p order st d.orders s' move found saved;
      touched = λ d p now n s' updated past.
          subst (History xs) (sym (E.orders.update_column_ok p _ d.orders n s' updated))
            (next (rows_of d) _ past (touch (rows_of d) p now));
      ended_activity = λ d p a s' found saved h. h;
    }

  -- Whatever is requested, and whichever calls fail, the table of the orders changes by steps of the
  -- specification: an order moves to a status that its own allows, a new order of an activity is
  -- QUEUED and its user's first of that activity, and the order of a cart waits to be paid.
  pub run-History :
      (rs : List Request) (w : World E) → History (rows_of w.db) (rows_of (run E S rs w).db)
  run-History rs w =
      run-keeps E S (λ d. History (rows_of w.db) (rows_of d)) (History-Keeps (rows_of w.db)) rs w
        start

  -- After any requests every order stands in its place with the same identity and amounts, in a
  -- status that the earlier one reaches.
  pub run-Later :
      (rs : List Request) (w : World E) → Evolves Later (rows_of w.db) (rows_of (run E S rs w).db)
  run-Later rs w = History-Evolves _ _ (run-History rs w)

  -- A user with at most one order of an activity has at most one after any requests.
  pub run-one_order :
      (user_id activity_id : ℕ) (rs : List Request) (w : World E)
      → 0 < activity_id
      → orders_of user_id activity_id (rows_of w.db) ≤ 1
      → orders_of user_id activity_id (rows_of (run E S rs w).db) ≤ 1
  run-one_order user_id activity_id rs w pos_id =
      History-orders_of user_id activity_id _ _ pos_id (run-History rs w)
