-- ===== src/Orders/Keeps/Settle.antt =====
-- What the transactions of cancelling and closing keep, `CancelOrder` and `ExpireOrders` keep.
use go_order_lab.Prelude.{
  ℕ, ◌≡◌, refl, List, [], ◌∷◌, ok, ℤ, arith, Text, Result-cases, inl, inr, Bool-cases,
}
use go_order_lab.Env.{Env, Db, World, transaction}
use go_order_lab.Env.Laws.{log-keeps, transaction-keeps, report-keeps}
use go_order_lab.Orders.Service.{OrderService}
use go_order_lab.Orders.Keeps.{Keeps}
use go_order_lab.Model.{Order}
use go_order_lab.Orders.Cancel.{
  cancel_tx, cancel_order, expire_tx, expire_one, expire_loop, expire_orders, is_expirable,
}
use go_order_lab.Model.{is_open, cancelled, closed}
use go_order_lab.Orders.Life.{is_cancelled, is_closed}
use go_order_lab.Orders.Restore.{restore_stock}
use go_order_lab.Orders.Cancel.{has_owner, has_order_no, CancelOrderResult}

module _ (E : Env) (S : OrderService) (J : Db E → Type 0) (K : Keeps E S J) where
  cancel_tx-keeps :
      (user_id : ℕ) (order_no : Text) (w : World E) (a : CancelOrderResult)
      → (cancel_tx E S user_id order_no w).0 ≡ ok a
      → J w.db
      → J (cancel_tx E S user_id order_no w).1.db
  unfolding cancel_tx
  cancel_tx-keeps user_id order_no w a done b =
      let p = has_owner user_id order_no in
      elim (Result-cases (E.orders.first p w.db.orders)) [
        | inr (e, missing) ↦ absurd (ground arith)
        | inl (order, found) ↦ elim (Bool-cases (is_open order.status)) [
          | inr settled ↦ absurd (ground arith)
          | inl opened ↦ elim (Result-cases (restore_stock E S order w).0) [
            | inr (e, stuck) ↦ absurd (ground arith)
            | inl (u, restored) ↦
                elim (Result-cases (
                  E.orders.save (record order { status = cancelled })
                    (restore_stock E S order w).1.db.orders)) [
                      | inr (e, failed) ↦ absurd (ground arith)
                      | inl ((u, s'), saved) ↦ ground (
                        arith,
                        K.settle p order cancelled w s' opened refl
                            (is_cancelled order.status opened) found restored saved b,
                      )
                    ]
          ]
        ]
      ]

  -- The transaction that closes an order under a condition on its status.
  expire_tx-keeps :
      (order_no : Text) (w : World E)
      → (expire_tx E S order_no w).0 ≡ ok tt
      → J w.db
      → J (expire_tx E S order_no w).1.db
  unfolding expire_tx
  expire_tx-keeps order_no w done b =
      let p = has_order_no order_no in
      elim (Result-cases (E.orders.first p w.db.orders)) [
        | inr (e, missing) ↦ absurd (ground arith)
        | inl (order, found) ↦ elim (Bool-cases (is_open order.status)) [
          | inr settled ↦ ground arith
          | inl opened ↦ elim (Result-cases (restore_stock E S order w).0) [
            | inr (e, stuck) ↦ absurd (ground arith)
            | inl (u, restored) ↦
                elim (Result-cases (
                  E.orders.save (record order { status = closed })
                    (restore_stock E S order w).1.db.orders)) [
                      | inr (e, failed) ↦ absurd (ground arith)
                      | inl ((u, s'), saved) ↦ ground (
                        arith,
                        K.settle p order closed w s' opened refl (is_closed order.status opened)
                            found restored saved b,
                      )
                    ]
          ]
        ]
      ]

  -- A cancellation, whatever its outcome.
  pub cancel_order-keeps :
      (user_id : ℕ) (order_no : Text) (w : World E)
      → J w.db
      → J (cancel_order E S user_id order_no w).1.db
  unfolding cancel_order
  cancel_order-keeps user_id order_no w b =
      report-keeps E J _ _ (transaction E (cancel_tx E S user_id order_no) w)
        (λ e v. log-keeps E J K.quiet _ _ _ _ _ v) (λ a v. log-keeps E J K.quiet _ _ _ _ _ v)
        (transaction-keeps E J (cancel_tx E S user_id order_no) w b
          (λ a done. cancel_tx-keeps user_id order_no w a done b))

  expire_one-keeps :
      (item : Order) (n : ℕ) (w : World E) → J w.db → J (expire_one E S item n w).1.db
  unfolding expire_one
  expire_one-keeps item n w b =
      let kept =
        transaction-keeps E J (expire_tx E S item.order_no) w b
          (λ u done. expire_tx-keeps item.order_no w done b) in
      elim (Result-cases (transaction E (expire_tx E S item.order_no) w).0) [
        | inl (u, e) ↦ rw (e, expire_one) (log-keeps E J K.quiet _ _ _ _ _ _ kept)
        | inr (x, e) ↦ rw (e, expire_one) (log-keeps E J K.quiet _ _ _ _ _ _ kept)
      ]

  expire_loop-keeps :
      (items : List Order) (n : ℕ) (w : World E) → J w.db → J (expire_loop E S items n w).1.db
  unfolding expire_loop
  expire_loop-keeps [] n w b = b
  expire_loop-keeps (item ∷ items) n w b =
      let (n', w') = expire_one E S item n w in
      expire_loop-keeps items n' w' (expire_one-keeps item n w b)

  -- Closing the orders that have run out, whichever of the transactions fail.
  pub expire_orders-keeps :
      (timeout now : ℤ) (w : World E) → J w.db → J (expire_orders E S timeout now w).1.db
  unfolding expire_orders
  expire_orders-keeps timeout now w b =
      elim (Result-cases (E.orders.find (is_expirable timeout now) w.db.orders)) [
        | inl (orders, e) ↦ rw (e, expire_orders) (expire_loop-keeps orders 0 w b)
        | inr (x, e) ↦ rw (e, expire_orders) b
      ]
