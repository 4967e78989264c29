-- ===== src/Orders/Payment/Once.antt =====
-- A transaction number is processed once, whichever of the calls on the tables fail.
use go_order_lab.Prelude.{
  ◌≡◌, refl, sym, ap, ◌∙◌, Bool, true, false, ok, List, [], ◌∷◌, ◌++◌, Result-cases, Bool-cases,
  inl, inr, arith, text_eq, text_eq_refl, text_eq-eq,
}
use go_order_lab.Store.Rows.{any, any_of_first}
use go_order_lab.Model.{Payment}
use go_order_lab.Env.{Env, Db, World, transaction, report}
use go_order_lab.Env.Laws.{transaction_ok, log-keeps}
use go_order_lab.Env.Atomic.{SameTables, log-SameTables, report-atomic}
use go_order_lab.Orders.Payment.{
  PaymentCallbackInput, PaymentResult, has_transaction_no, new_payment, duplicate_callback,
  new_callback, payment_tx, payment_callback,
}

any_last :
    (p : Payment → Bool) (xs : List Payment) (q : Payment)
    → p q ≡ true
    → any p (xs ++ q ∷ []) ≡ true
any_last p [] q h = rw h refl
any_last p (x ∷ xs) q h = ground (arith, any_last p xs q h)

module _ (E : Env) (input : PaymentCallbackInput) where
  -- The number stands among the payments.
  abbrev pub is_recorded : Db E → Bool
  is_recorded d = any (has_transaction_no input.transaction_no) (E.payments.rows d.payments)

  -- The unique index refuses the number a second time.
  clash :
      (xs : List Payment)
      → any (has_transaction_no input.transaction_no) xs ≡ true
      → any (λ x. text_eq (new_payment input).transaction_no x.transaction_no) xs ≡ true
  clash [] h = cc
  clash (x ∷ xs) h = elim (Bool-cases (text_eq x.transaction_no input.transaction_no)) [
    | inl e ↦
        (let same = text_eq-eq x.transaction_no input.transaction_no e in
          let here : text_eq input.transaction_no x.transaction_no ≡ true =
            rw same (text_eq_refl input.transaction_no) in
          rw here refl)
    | inr e ↦ (let rest = clash xs (rw e at h) in ground (arith, rest))
  ]

  -- A recorded number makes the part behind the look-up fail.
  new_callback_recorded :
      (w : World E) (r : PaymentResult)
      → is_recorded w.db ≡ true
      → (new_callback E input w).0 ≡ ok r
      → ⊥
  unfolding new_callback
  new_callback_recorded w r known done =
      elim (Result-cases (E.payments.create (new_payment input) w.db.payments)) [
        | inr (e, refused) ↦ ground arith
        | inl ((q, t), made) ↦
            (let (_, _, free) = E.payments.create_ok (new_payment input) w.db.payments q t made in
              let hit = clash (E.payments.rows w.db.payments) known in
              let both : true ≡ false = sym hit ∙ free in ground arith)
      ]

  payment_tx_recorded :
      (w : World E) (r : PaymentResult)
      → is_recorded w.db ≡ true
      → (payment_tx E input w).0 ≡ ok r
      → (r.already_processed ≡ true) × ((payment_tx E input w).1 ≡ w)
  unfolding payment_tx duplicate_callback
  payment_tx_recorded w r known done =
      elim (Result-cases
        (E.payments.first (has_transaction_no input.transaction_no) w.db.payments)) [
          | inl (q, seen) ↦ (ground arith, rw (seen, payment_tx) refl)
          | inr (e, missing) ↦
              absurd (new_callback_recorded w r known (rw (payment_tx, missing) at done))
        ]

  -- A callback whose transaction number is among the payments changes no table but the log, whatever
  -- its status, its order and its outcome.
  pub payment_callback-once :
      (w : World E) → is_recorded w.db ≡ true → SameTables E w.db (payment_callback E input w).1.db
  unfolding payment_callback
  payment_callback-once w known = elim (Result-cases (transaction E (payment_tx E input) w).0) [
    | inr (x, e) ↦
        report-atomic E (payment_tx E input) _ _ w x
          (λ e v same. log-SameTables E _ _ _ _ _ v w.db same) (rw (report, e) refl)
    | inl (r, e) ↦
        (let (done, last) = transaction_ok E (payment_tx E input) w r e in
          let (_, same) = payment_tx_recorded w r known done in
          rw (e, report) (log-SameTables E _ _ _ _ _ _ w.db (ap (λ v. v.db) (last ∙ same))))
  ]

  new_callback_records :
      (w : World E) (r : PaymentResult)
      → (new_callback E input w).0 ≡ ok r
      → is_recorded (new_callback E input w).1.db ≡ true
  unfolding new_callback
  new_callback_records w r done =
      elim (Result-cases (E.payments.create (new_payment input) w.db.payments)) [
        | inr (e, refused) ↦ absurd (ground arith)
        | inl ((q, t), made) ↦
            (let (row, rows, _) = E.payments.create_ok (new_payment input) w.db.payments q t made in
              let hit : any (has_transaction_no input.transaction_no) (E.payments.rows t) ≡ true =
                rw rows (
                  any_last _ (E.payments.rows w.db.payments) q
                    (rw (ap (λ x. x.transaction_no) row) (text_eq_refl input.transaction_no))) in
              ground (arith, hit))
      ]

  payment_tx_records :
      (w : World E) (r : PaymentResult)
      → (payment_tx E input w).0 ≡ ok r
      → is_recorded (payment_tx E input w).1.db ≡ true
  unfolding payment_tx
  payment_tx_records w r done =
      elim (Result-cases
        (E.payments.first (has_transaction_no input.transaction_no) w.db.payments)) [
          | inl (q, seen) ↦
              rw (seen, payment_tx)
                (any_of_first (has_transaction_no input.transaction_no)
                  (E.payments.rows w.db.payments) q
                  (E.payments.first_ok (has_transaction_no input.transaction_no) w.db.payments q
                    seen))
          | inr (e, missing) ↦
              rw (missing, payment_tx) (new_callback_records w r (rw (payment_tx, missing) at done))
        ]

  -- A callback that is answered without an error is recorded under its transaction number.
  pub payment_callback-recorded :
      (w : World E) (r : PaymentResult)
      → (payment_callback E input w).0 ≡ ok r
      → is_recorded (payment_callback E input w).1.db ≡ true
  unfolding payment_callback
  payment_callback-recorded w r h = elim (Result-cases (transaction E (payment_tx E input) w).0) [
    | inr (x, e) ↦ absurd (ground arith)
    | inl (a, e) ↦
        (let (done, last) = transaction_ok E (payment_tx E input) w a e in
          let known = payment_tx_records w a done in
          rw (e, report)
            (log-keeps E (λ d. is_recorded d ≡ true) (λ d s k. k) _ _ _ _ _ _ (rw last known)))
  ]

  -- The same callback sent again, after one that was answered without an error, changes no table but
  -- the log.
  pub payment_callback-replay :
      (w : World E) (r : PaymentResult)
      → (payment_callback E input w).0 ≡ ok r
      → SameTables E
          (payment_callback E input w).1.db
          (payment_callback E input (payment_callback E input w).1).1.db
  payment_callback-replay w r h =
      payment_callback-once (payment_callback E input w).1 (payment_callback-recorded w r h)
