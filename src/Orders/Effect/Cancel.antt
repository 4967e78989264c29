-- ===== src/Orders/Effect/Cancel.antt =====
-- What a cancellation has done when it reports no error.
use go_order_lab.Prelude.{ℕ, ◌≡◌, refl, subst, ok, Text, arith, Result-cases, Bool-cases, inl, inr}
use go_order_lab.Model.{is_open, cancelled}
use go_order_lab.Env.{Env, World, transaction, report}
use go_order_lab.Env.Laws.{transaction_ok, log-keeps}
use go_order_lab.Orders.Service.{OrderService}
use go_order_lab.Orders.Restore.{restore_stock}
use go_order_lab.Orders.Cancel.{CancelOrderResult, has_owner, cancel_tx, cancel_order}
use go_order_lab.Orders.Balance.Restore.{restore_stock_orders}
use go_order_lab.Orders.Effect.{Moved, save-Moved}

module _ (E : Env) (S : OrderService) (user_id : ℕ) (order_no : Text) where
  -- An open order of the user under this number, which is now cancelled.
  abbrev pub Cancelled : World E → World E → Type 0
  Cancelled w w' =
      Moved (has_owner user_id order_no) is_open cancelled (E.orders.rows w.db.orders)
        (E.orders.rows w'.db.orders)

  cancel_tx-Cancelled :
      (w : World E) (r : CancelOrderResult)
      → (cancel_tx E S user_id order_no w).0 ≡ ok r
      → Cancelled w (cancel_tx E S user_id order_no w).1
  unfolding cancel_tx
  cancel_tx-Cancelled w r done =
      let p = has_owner user_id order_no in
      elim (Result-cases (E.orders.first p w.db.orders)) [
        | inr (e, missing) ↦ absurd (ground arith)
        | inl (order, found) ↦ elim (Bool-cases (is_open order.status)) [
          | inr settled ↦ absurd (ground arith)
          | inl opened ↦ elim (Result-cases (restore_stock E S order w).0) [
            | inr (e, stuck) ↦ absurd (ground arith)
            | inl (u, restored) ↦
                elim (Result-cases (
                  E.orders.save (record order { status = cancelled })
                    (restore_stock E S order w).1.db.orders)) [
                      | inr (e, failed) ↦ absurd (ground arith)
                      | inl ((u, s'), saved) ↦
                          (let same = restore_stock_orders E S order w in
                            let moved =
                              save-Moved E p is_open order cancelled w.db.orders s' (λ t. refl)
                                opened found
                                (subst
                                  (λ o.
                                    E.orders.save (record order { status = cancelled }) o
                                    ≡ ok (tt, s'))
                                  same saved) in
                            let last : (cancel_tx E S user_id order_no w).1.db.orders ≡ s' =
                              ground arith in
                            rw last moved)
                    ]
          ]
        ]
      ]

  -- A cancellation that reports no error found an order of the user under this number, QUEUED or
  -- WAIT_PAY, and that order is CANCELLED now.
  pub cancel_order-Cancelled :
      (w : World E) (r : CancelOrderResult)
      → (cancel_order E S user_id order_no w).0 ≡ ok r
      → Cancelled w (cancel_order E S user_id order_no w).1
  unfolding cancel_order
  cancel_order-Cancelled w r h =
      let m = cancel_tx E S user_id order_no in
      elim (Result-cases (transaction E m w).0) [
        | inr (x, e) ↦ absurd (ground arith)
        | inl (a, e) ↦
            (let (done, last) = transaction_ok E m w a e in
              rw (e, report)
                (log-keeps E
                  (λ d.
                    Moved (has_owner user_id order_no) is_open cancelled (E.orders.rows w.db.orders)
                      (E.orders.rows d.orders))
                  (λ d s k. k) _ _ _ _ _ _ (rw last (cancel_tx-Cancelled w a done))))
      ]
