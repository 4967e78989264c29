-- ===== src/Orders/Keeps/Sweep.antt =====
-- What the transactions of the compensation keep, `Compensate` keeps.
use go_order_lab.Prelude.{
  ℕ, ◌≡◌, refl, Bool, true, false, List, [], ◌∷◌, ok, ℤ, arith, Text, Result-cases, inl, inr,
  Bool-cases, ◌>>=◌,
}
use go_order_lab.Env.{Env, Db, World, transaction}
use go_order_lab.Env.Laws.{bind-keeps, log-keeps, transaction-keeps}
use go_order_lab.Orders.Service.{OrderService}
use go_order_lab.Orders.Keeps.{Keeps}
use go_order_lab.Model.{Order, Activity}
use go_order_lab.Orders.Publish.Frame.{publish_order_task-keeps}
use go_order_lab.Orders.Compensate.{
  CompensateInput, CompensationResult, nothing_done, is_stale, is_unpaid, is_past, requeue_tx,
  close_tx, end_tx, requeue_one, close_one, end_one, rounds, requeue_stale, close_unpaid, end_past,
  compensate,
}
use go_order_lab.Store.Rows.{has_id}
use go_order_lab.Model.{activity_columns, is_wait_pay, is_open, is_published, closed, ended}
use go_order_lab.Orders.Life.{is_closed}
use go_order_lab.Orders.Restore.{restore_stock}
use go_order_lab.Orders.Cancel.{has_order_no}
use go_order_lab.Orders.Compensate.{is_requeueable, touch_order}

module _ (E : Env) (S : OrderService) (J : Db E → Type 0) (K : Keeps E S J) where
  requeue_tx-keeps :
      (now : ℤ) (order_no : Text) (w : World E) (r : Bool)
      → (requeue_tx E S now order_no w).0 ≡ ok r
      → J w.db
      → J (requeue_tx E S now order_no w).1.db
  unfolding requeue_tx
  requeue_tx-keeps now order_no w r done b =
      let p = is_requeueable order_no in
      elim (Result-cases (E.orders.update_column p (touch_order now) w.db.orders)) [
        | inr (e, failed) ↦ absurd (ground arith)
        | inl ((n, s'), updated) ↦ ground (arith, K.touched w.db p now n s' updated b)
      ]

  end_tx-keeps :
      (activity_id : ℕ) (w : World E) (r : Bool)
      → (end_tx E S activity_id w).0 ≡ ok r
      → J w.db
      → J (end_tx E S activity_id w).1.db
  unfolding end_tx
  end_tx-keeps activity_id w r done b =
      let p = has_id activity_columns activity_id in
      elim (Result-cases (E.activities.first p w.db.activities)) [
        | inr (e, missing) ↦ absurd (ground arith)
        | inl (a, found) ↦ elim (Bool-cases (is_published a.status)) [
          | inr over ↦ ground arith
          | inl open_still ↦
              elim (Result-cases
                (E.activities.save (record a { status = ended }) w.db.activities)) [
                  | inr (e, failed) ↦ absurd (ground arith)
                  | inl ((u, s'), saved) ↦
                      ground (arith, K.ended_activity w.db p a s' found saved b)
                ]
        ]
      ]

  close_tx-keeps :
      (order_no : Text) (w : World E) (r : Bool)
      → (close_tx E S order_no w).0 ≡ ok r
      → J w.db
      → J (close_tx E S order_no w).1.db
  unfolding close_tx
  close_tx-keeps order_no w r done b =
      let p = has_order_no order_no in
      elim (Result-cases (E.orders.first p w.db.orders)) [
        | inr (e, missing) ↦ absurd (ground arith)
        | inl (order, found) ↦ elim (Bool-cases (is_wait_pay order.status)) [
          | inr settled ↦ ground arith
          | inl waits ↦ elim (Result-cases (restore_stock E S order w).0) [
            | inr (e, stuck) ↦ absurd (ground arith)
            | inl (u, restored) ↦
                elim (Result-cases (
                  E.orders.save (record order { status = closed })
                    (restore_stock E S order w).1.db.orders)) [
                      | inr (e, failed) ↦ absurd (ground arith)
                      | inl ((u, s'), saved) ↦
                          (let opened : is_open order.status ≡ true = ground arith in
                            ground (
                              arith,
                              K.settle p order closed w s' opened refl
                                  (is_closed order.status opened) found restored saved b,
                            ))
                    ]
          ]
        ]
      ]

  requeue_one-keeps :
      (now : ℤ) (item : Order) (result : CompensationResult) (w : World E)
      → J w.db
      → J (requeue_one E S now item result w).1.db
  unfolding requeue_one
  requeue_one-keeps now item result w b =
      let m = requeue_tx E S now item.order_no in
      let kept =
        transaction-keeps E J m w b (λ r done. requeue_tx-keeps now item.order_no w r done b) in
      elim (Result-cases (transaction E m w).0) [
        | inr (x, e) ↦ rw (e, requeue_one) (log-keeps E J K.quiet _ _ _ _ _ _ kept)
        | inl (true, e) ↦
            rw (e, requeue_one)
              (log-keeps E J K.quiet _ _ _ _ _ _
                (publish_order_task-keeps E J K.quiet S item.order_no _ kept))
        | inl (false, e) ↦ rw (e, requeue_one) kept
      ]

  close_one-keeps :
      (item : Order) (result : CompensationResult) (w : World E)
      → J w.db
      → J (close_one E S item result w).1.db
  unfolding close_one
  close_one-keeps item result w b =
      let m = close_tx E S item.order_no in
      let kept = transaction-keeps E J m w b (λ r done. close_tx-keeps item.order_no w r done b) in
      elim (Result-cases (transaction E m w).0) [
        | inr (x, e) ↦ rw (e, close_one) (log-keeps E J K.quiet _ _ _ _ _ _ kept)
        | inl (true, e) ↦ rw (e, close_one) (log-keeps E J K.quiet _ _ _ _ _ _ kept)
        | inl (false, e) ↦ rw (e, close_one) kept
      ]

  end_one-keeps :
      (item : Activity) (result : CompensationResult) (w : World E)
      → J w.db
      → J (end_one E S item result w).1.db
  unfolding end_one
  end_one-keeps item result w b =
      let m = end_tx E S item.id in
      let kept = transaction-keeps E J m w b (λ r done. end_tx-keeps item.id w r done b) in
      elim (Result-cases (transaction E m w).0) [
        | inr (x, e) ↦ rw (e, end_one) (log-keeps E J K.quiet _ _ _ _ _ _ kept)
        | inl (true, e) ↦ rw (e, end_one) (log-keeps E J K.quiet _ _ _ _ _ _ kept)
        | inl (false, e) ↦ rw (e, end_one) kept
      ]

  rounds-keeps :
      {A : Type 0} (round : A → CompensationResult → World E → CompensationResult × World E)
      → ((x : A) (result : CompensationResult) (w : World E) → J w.db → J (round x result w).1.db)
      → (xs : List A) (result : CompensationResult) (w : World E) → J w.db
      → J (rounds E S round xs result w).1.db
  unfolding rounds
  rounds-keeps round keeps [] result w b = b
  rounds-keeps round keeps (x ∷ xs) result w b =
      let (result', w') = round x result w in
      rounds-keeps round keeps xs result' w' (keeps x result w b)

  requeue_stale-keeps :
      (input : CompensateInput) (now : ℤ) (result : CompensationResult) (w : World E)
      → J w.db
      → J (requeue_stale E S input now result w).1.db
  unfolding requeue_stale
  requeue_stale-keeps input now result w b =
      elim (Result-cases (E.orders.find (is_stale input now) w.db.orders)) [
        | inr (x, e) ↦ rw (e, requeue_stale) b
        | inl (items, e) ↦
            rw (e, requeue_stale)
              (rounds-keeps (requeue_one E S now) (requeue_one-keeps now) items result w b)
      ]

  close_unpaid-keeps :
      (input : CompensateInput) (now : ℤ) (result : CompensationResult) (w : World E)
      → J w.db
      → J (close_unpaid E S input now result w).1.db
  unfolding close_unpaid
  close_unpaid-keeps input now result w b =
      elim (Result-cases (E.orders.find (is_unpaid input now) w.db.orders)) [
        | inr (x, e) ↦ rw (e, close_unpaid) b
        | inl (items, e) ↦
            rw (e, close_unpaid) (rounds-keeps (close_one E S) close_one-keeps items result w b)
      ]

  end_past-keeps :
      (now : ℤ) (result : CompensationResult) (w : World E)
      → J w.db
      → J (end_past E S now result w).1.db
  unfolding end_past
  end_past-keeps now result w b =
      elim (Result-cases (E.activities.find (is_past now) w.db.activities)) [
        | inr (x, e) ↦ rw (e, end_past) b
        | inl (items, e) ↦
            rw (e, end_past) (rounds-keeps (end_one E S) end_one-keeps items result w b)
      ]

  pub compensate-keeps :
      (input : CompensateInput) (now : ℤ) (w : World E)
      → J w.db
      → J (compensate E S input now w).1.db
  unfolding compensate
  compensate-keeps input now w b =
      bind-keeps E J (requeue_stale E S input now nothing_done)
        (λ r. close_unpaid E S input now r >>= end_past E S now) w
        (requeue_stale-keeps input now nothing_done w b)
        (λ r v c.
          bind-keeps E J (close_unpaid E S input now r) (end_past E S now) v
            (close_unpaid-keeps input now r v c) (λ r' v' c'. end_past-keeps now r' v' c'))
