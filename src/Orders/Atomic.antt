-- ===== src/Orders/Atomic.antt =====
-- The operations of internal/service/order.go are atomic: one that fails leaves the tables as they
-- were, but for the log.
use go_order_lab.Prelude.{
  ℕ, ◌≡◌, err, Error, ℤ, Text, Result-cases, Option-cases, Bool-cases, inl, inr, arith, subst,
}
use go_order_lab.Model.{Activity}
use go_order_lab.Env.{Env, World, transaction}
use go_order_lab.Env.Laws.{transaction_err}
use go_order_lab.Env.Atomic.{SameTables, SameTables-refl, log-SameTables, report-atomic}
use go_order_lab.Orders.Service.{OrderService}
use go_order_lab.Orders.Create.{
  CreateOrderInput, Reads, create_order_tx, place_order_tx, create_order_with_db,
  create_order_with_redis, place_reserved, reserve_activity, create_order_context, named_request,
}
use go_order_lab.Orders.Create.Frame.{reserve_activity_frame}
use go_order_lab.Orders.Cancel.{cancel_tx, cancel_order}
use go_order_lab.Orders.Payment.{PaymentCallbackInput, payment_tx, payment_callback}
use go_order_lab.Orders.Checkout.{CheckoutCartInput, CheckoutReads, checkout_tx, checkout_cart}

module _ (E : Env) where
  -- A cancellation that is refused or fails changes no table but the log: neither the order, nor the
  -- stock that was to be given back.
  pub cancel_order-atomic :
      (S : OrderService) (user_id : ℕ) (order_no : Text) (w : World E) (x : Error)
      → (cancel_order E S user_id order_no w).0 ≡ err x
      → SameTables E w.db (cancel_order E S user_id order_no w).1.db
  unfolding cancel_order
  cancel_order-atomic S user_id order_no w x h =
      report-atomic E (cancel_tx E S user_id order_no) _ _ w x
        (λ e v same. log-SameTables E _ _ _ _ _ v w.db same) h

  -- A checkout that fails, at whichever item, coupon or row, changes no table but the log.
  pub checkout_cart-atomic :
      (user_id : ℕ) (input : CheckoutCartInput) (reads : CheckoutReads) (w : World E) (x : Error)
      → (checkout_cart E user_id input reads w).0 ≡ err x
      → SameTables E w.db (checkout_cart E user_id input reads w).1.db
  unfolding checkout_cart
  checkout_cart-atomic user_id input reads w x h =
      report-atomic E (checkout_tx E user_id input reads) _ _ w x
        (λ e v same. log-SameTables E _ _ _ _ _ v w.db same) h

  -- A payment that is refused changes no table but the log, so its transaction number stays free.
  pub payment_callback-atomic :
      (input : PaymentCallbackInput) (w : World E) (x : Error)
      → (payment_callback E input w).0 ≡ err x
      → SameTables E w.db (payment_callback E input w).1.db
  unfolding payment_callback
  payment_callback-atomic input w x h =
      report-atomic E (payment_tx E input) _ _ w x
        (λ e v same. log-SameTables E _ _ _ _ _ v w.db same) h

  module _ (S : OrderService) (user_id : ℕ) (reads : Reads) where
    place_reserved-atomic :
        (input : CreateOrderInput) (activity : Activity) (left : ℤ) (w : World E) (x : Error)
        → (place_reserved E S user_id input reads activity left w).0 ≡ err x
        → SameTables E w.db (place_reserved E S user_id input reads activity left w).1.db
    unfolding place_reserved
    place_reserved-atomic input activity left w x h =
        let m = place_order_tx E user_id input reads activity in
        elim (Result-cases (transaction E m w).0) [
          | inl (order, e) ↦ absurd (ground arith)
          | inr (y, e) ↦
              rw (e, place_reserved) (log-SameTables E _ _ _ _ _ _ w.db (transaction_err E m w y e))
        ]

    with_redis-atomic :
        (input : CreateOrderInput) (w : World E) (x : Error)
        → (create_order_with_redis E S user_id input reads w).0 ≡ err x
        → SameTables E w.db (create_order_with_redis E S user_id input reads w).1.db
    unfolding create_order_with_redis
    with_redis-atomic input w x h =
        let same = reserve_activity_frame E user_id input reads w in
        elim (Result-cases (reserve_activity E user_id input reads w).0) [
          | inl ((a, left), e) ↦
              (let w' = (reserve_activity E user_id input reads w).1 in
                rw (e, create_order_with_redis)
                  (subst
                    (λ d. SameTables E d (place_reserved E S user_id input reads a left w').1.db)
                    same
                    (place_reserved-atomic input a left w' x
                      (rw (create_order_with_redis, e) at h))))
          | inr (y, e) ↦ rw (e, create_order_with_redis) (log-SameTables E _ _ _ _ _ _ w.db same)
        ]

    with_db-atomic :
        (input : CreateOrderInput) (w : World E) (x : Error)
        → (create_order_with_db E S user_id input reads w).0 ≡ err x
        → SameTables E w.db (create_order_with_db E S user_id input reads w).1.db
    unfolding create_order_with_db
    with_db-atomic input w x h =
        report-atomic E (create_order_tx E user_id input reads) _ _ w x
          (λ e v same. log-SameTables E _ _ _ _ _ v w.db same) h

    -- An order that is refused changes no table but the log, behind the cache and without it.
    pub create_order_context-atomic :
        (input : CreateOrderInput) (w : World E) (x : Error)
        → (create_order_context E S user_id input reads w).0 ≡ err x
        → SameTables E w.db (create_order_context E S user_id input reads w).1.db
    unfolding create_order_context
    create_order_context-atomic input w x h = elim (Option-cases reads.context_error) [
      | inr (y, e) ↦ rw (e, create_order_context) (SameTables-refl E w.db)
      | inl e ↦ elim (Bool-cases S.redis_stock) [
        | inl on ↦
            rw (e, create_order_context, on)
              (with_redis-atomic (named_request input reads) w x
                (rw (create_order_context, e, on) at h))
        | inr off ↦
            rw (e, create_order_context, off)
              (with_db-atomic (named_request input reads) w x
                (rw (create_order_context, e, off) at h))
      ]
    ]
