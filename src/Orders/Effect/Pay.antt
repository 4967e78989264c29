-- ===== src/Orders/Effect/Pay.antt =====
-- What a payment has done when it reports no error.
use go_order_lab.Prelude.{
  ◌≡◌, refl, true, false, ok, text_eq, codes, arith, Result-cases, Bool-cases, inl, inr,
}
use go_order_lab.Model.{is_wait_pay, paid}
use go_order_lab.Env.{Env, World, transaction, report}
use go_order_lab.Env.Laws.{transaction_ok, log-keeps}
use go_order_lab.Orders.Cancel.{has_order_no}
use go_order_lab.Orders.Payment.{
  PaymentCallbackInput, PaymentResult, has_transaction_no, new_payment, new_callback,
  duplicate_callback, payment_tx, payment_callback,
}
use go_order_lab.Orders.Effect.{Moved, save-Moved}

module _ (E : Env) (input : PaymentCallbackInput)
    (success : text_eq input.status (codes "SUCCESS") ≡ true) where
  -- An order under this number that waited for its payment, and is paid now.
  abbrev pub Paid : World E → World E → Type 0
  Paid w w' =
      Moved (has_order_no input.order_no) is_wait_pay paid (E.orders.rows w.db.orders)
        (E.orders.rows w'.db.orders)

  new_callback-Paid :
      (w : World E) (r : PaymentResult)
      → (new_callback E input w).0 ≡ ok r
      → Paid w (new_callback E input w).1
  unfolding new_callback
  new_callback-Paid w r done =
      let p = has_order_no input.order_no in
      elim (Result-cases (E.orders.first p w.db.orders)) [
        | inr (e, missing) ↦ absurd (ground arith)
        | inl (order, found) ↦ elim (Bool-cases (is_wait_pay order.status)) [
          | inr early ↦ absurd (ground arith)
          | inl waits ↦
              elim (Result-cases (E.orders.save (record order { status = paid }) w.db.orders)) [
                | inr (e, failed) ↦ absurd (ground arith)
                | inl ((u, s'), saved) ↦
                    (let moved =
                        save-Moved E p is_wait_pay order paid w.db.orders s' (λ t. refl) waits found
                          saved in
                      elim (Result-cases (E.payments.create (new_payment input) w.db.payments)) [
                        | inr (e, refused) ↦ absurd (ground arith)
                        | inl ((q, t), made) ↦
                            (let last : (new_callback E input w).1.db.orders ≡ s' = ground arith in
                              rw last moved)
                      ])
              ]
        ]
      ]

  payment_tx-Paid :
      (w : World E) (r : PaymentResult)
      → (payment_tx E input w).0 ≡ ok r
      → r.already_processed ≡ false
      → Paid w (payment_tx E input w).1
  unfolding payment_tx duplicate_callback
  payment_tx-Paid w r done fresh =
      elim (Result-cases
        (E.payments.first (has_transaction_no input.transaction_no) w.db.payments)) [
          | inl (q, seen) ↦ absurd (ground arith)
          | inr (e, missing) ↦
              rw (missing, payment_tx) (new_callback-Paid w r (rw (payment_tx, missing) at done))
        ]

  -- A successful callback that is answered without an error, and not as a duplicate, found its order
  -- WAIT_PAY, and that order is PAID now.
  pub payment_callback-Paid :
      (w : World E) (r : PaymentResult)
      → (payment_callback E input w).0 ≡ ok r
      → r.already_processed ≡ false
      → Paid w (payment_callback E input w).1
  unfolding payment_callback
  payment_callback-Paid w r h fresh =
      let m = payment_tx E input in
      elim (Result-cases (transaction E m w).0) [
        | inr (x, e) ↦ absurd (ground arith)
        | inl (a, e) ↦
            (let (done, last) = transaction_ok E m w a e in
              let same : a ≡ r = ground arith in
              rw (e, report)
                (log-keeps E
                  (λ d.
                    Moved (has_order_no input.order_no) is_wait_pay paid (E.orders.rows w.db.orders)
                      (E.orders.rows d.orders))
                  (λ d s k. k) _ _ _ _ _ _ (rw last (payment_tx-Paid w a done (rw same fresh)))))
      ]
