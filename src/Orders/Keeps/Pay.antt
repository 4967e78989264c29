-- ===== src/Orders/Keeps/Pay.antt =====
-- What the transaction of a payment keeps, `PaymentCallback` keeps.
use go_order_lab.Prelude.{◌≡◌, refl, true, ok, arith, Result-cases, inl, inr, Bool-cases}
use go_order_lab.Env.{Env, Db, World, transaction}
use go_order_lab.Env.Laws.{log-keeps, transaction-keeps, report-keeps}
use go_order_lab.Orders.Service.{OrderService}
use go_order_lab.Orders.Keeps.{Keeps}
use go_order_lab.Orders.Payment.{PaymentCallbackInput, payment_tx, payment_callback}
use go_order_lab.Prelude.{text_eq, codes}
use go_order_lab.Model.{OrderStatus, is_wait_pay, wait_pay, paid}
use go_order_lab.Orders.Life.{is_live, Moves, is_paid}
use go_order_lab.Orders.Cancel.{has_order_no}
use go_order_lab.Orders.Payment.{PaymentResult, has_transaction_no, new_callback, new_payment}

waiting_move : (s : OrderStatus) → is_wait_pay s ≡ true → Moves s paid
waiting_move wait_pay e = is_paid
waiting_move OrderStatus.queued e = cc
waiting_move OrderStatus.paid e = cc
waiting_move OrderStatus.cancelled e = cc
waiting_move OrderStatus.closed e = cc
waiting_move (OrderStatus.other t) e = cc

module _ (E : Env) (S : OrderService) (J : Db E → Type 0) (K : Keeps E S J) where
  new_callback-keeps :
      (input : PaymentCallbackInput) (w : World E) (r : PaymentResult)
      → (new_callback E input w).0 ≡ ok r
      → J w.db
      → J (new_callback E input w).1.db
  unfolding new_callback
  new_callback-keeps input w r done b =
      let p = has_order_no input.order_no in
      elim (Result-cases (E.orders.first p w.db.orders)) [
        | inr (e, missing) ↦ absurd (ground arith)
        | inl (order, found) ↦ elim (Bool-cases (text_eq input.status (codes "SUCCESS"))) [
          | inr other ↦ elim (Result-cases (E.payments.create (new_payment input) w.db.payments)) [
            | inr (e, refused) ↦ absurd (ground arith)
            | inl ((q, t), made) ↦ ground (arith, K.payments_aside w.db t b)
          ]
          | inl success ↦ elim (Bool-cases (is_wait_pay order.status)) [
            | inr early ↦ absurd (ground arith)
            | inl waits ↦
                elim (Result-cases (E.orders.save (record order { status = paid }) w.db.orders)) [
                  | inr (e, failed) ↦ absurd (ground arith)
                  | inl ((u, s'), saved) ↦
                      (let live : is_live order.status ≡ true = ground arith in
                        let kept =
                          K.hold p order paid w.db s' live refl (waiting_move order.status waits)
                            found saved b in
                        elim (Result-cases (E.payments.create (new_payment input) w.db.payments)) [
                          | inr (e, refused) ↦ absurd (ground arith)
                          | inl ((q, t), made) ↦
                              ground
                                (arith, K.payments_aside (record (w.db) { orders = s' }) t kept)
                        ])
                ]
          ]
        ]
      ]

  payment_tx-keeps :
      (input : PaymentCallbackInput) (w : World E) (r : PaymentResult)
      → (payment_tx E input w).0 ≡ ok r
      → J w.db
      → J (payment_tx E input w).1.db
  unfolding payment_tx
  payment_tx-keeps input w r done b =
      elim (Result-cases
        (E.payments.first (has_transaction_no input.transaction_no) w.db.payments)) [
          | inl (q, seen) ↦ rw (seen, payment_tx) b
          | inr (e, fresh) ↦
              rw (fresh, payment_tx)
                (new_callback-keeps input w r (rw (fresh, payment_tx) at done) b)
        ]

  pub payment_callback-keeps :
      (input : PaymentCallbackInput) (w : World E) → J w.db → J (payment_callback E input w).1.db
  unfolding payment_callback
  payment_callback-keeps input w b =
      report-keeps E J _ _ (transaction E (payment_tx E input) w)
        (λ e v. log-keeps E J K.quiet _ _ _ _ _ v) (λ a v. log-keeps E J K.quiet _ _ _ _ _ v)
        (transaction-keeps E J (payment_tx E input) w b
          (λ r done. payment_tx-keeps input w r done b))
