-- ===== src/Orders/Keeps/Cart.antt =====
-- What the order of a cart keeps, `CheckoutCart` keeps.
use go_order_lab.Prelude.{
  ℕ, refl, List, [], ◌∷◌, Result, ℤ, pos, arith, wrap64, ◌-ℤ◌, Result-cases, inl, inr, ◌>>=◌, ◌>>◌,
  pure,
}
use go_order_lab.Env.{Env, Db, World, transaction, for_each, create_order}
use go_order_lab.Store.Rows.{has_id}
use go_order_lab.Env.Laws.{bind-keeps, log-keeps, transaction-keeps, report-keeps}
use go_order_lab.Orders.Service.{OrderService}
use go_order_lab.Orders.Keeps.{Keeps}
use go_order_lab.Orders.Keeps.Aside.{apply_coupon-keeps, lines-keeps, clear_cart-keeps}
use go_order_lab.Model.{Order, CartItem, Product, product_columns}
use go_order_lab.Orders.Coupon.{apply_coupon}
use go_order_lab.Orders.Checkout.{
  CheckoutCartInput, CheckoutReads, load_cart, take_item, take_items, write_line, clear_cart,
  cart_order, place_cart_order, checkout_items, checkout_tx, checkout_cart, owns_address,
}

module _ (E : Env) (S : OrderService) (J : Db E → Type 0) (K : Keeps E S J) where
  take_item-keeps :
      (item : CartItem) (amount : ℤ) (w : World E) → J w.db → J (take_item E item amount w).1.db
  unfolding take_item
  take_item-keeps item amount w b =
      elim (Result-cases
        (E.products.first (has_id product_columns item.product_id) w.db.products)) [
          | inr (e, missing) ↦ ground arith
          | inl (p, found) ↦
              elim (Result-cases (
                E.products.save (record p { stock = wrap64 (p.stock -ℤ item.quantity) })
                  w.db.products)) [
                    | inr (e, failed) ↦ ground arith
                    | inl ((u, s), saved) ↦ ground (arith, K.products_aside w.db s b)
                  ]
        ]

  take_items-keeps :
      (items : List (CartItem × Product)) (amount : ℤ) (w : World E)
      → J w.db
      → J (take_items E items amount w).1.db
  unfolding take_items
  take_items-keeps [] amount w b = b
  take_items-keeps ((item, p) ∷ items) amount w b =
      bind-keeps E J (take_item E item amount) (take_items E items) w
        (take_item-keeps item amount w b) (λ a v c. take_items-keeps items a v c)

  place_cart_order-keeps :
      (user_id : ℕ) (input : CheckoutCartInput) (reads : CheckoutReads) (first : CartItem × Product)
      (rest : List (CartItem × Product)) (w : World E)
      → J w.db
      → J (place_cart_order E user_id input reads first rest w).1.db
  unfolding place_cart_order
  place_cart_order-keeps user_id input reads first rest w b =
      bind-keeps E J (take_items E (first ∷ rest) (pos 0))
        (λ original.
          apply_coupon E user_id input.user_coupon_id original reads.now >>= ordered original)
        w (take_items-keeps (first ∷ rest) (pos 0) w b)
        (λ original v c.
          bind-keeps E J (apply_coupon E user_id input.user_coupon_id original reads.now)
            (ordered original) v
            (apply_coupon-keeps E J K.user_coupons_aside user_id input.user_coupon_id original
              reads.now v c)
            (λ discount v' c'.
              bind-keeps E J (create_order E (new original discount)) written v'
                (K.cart (new original discount) v' refl refl c')
                (λ order v'' d.
                  bind-keeps E J (for_each (write_line E order) (first ∷ rest))
                    (λ _. clear_cart E user_id >> pure order) v''
                    (lines-keeps E J K.order_items_aside order (first ∷ rest) v'' d)
                    (λ _ u e.
                      bind-keeps E J (clear_cart E user_id) (λ _. pure order) u
                        (clear_cart-keeps E J K.cart_items_aside user_id u e) (λ _ t f. f)))))
    where
      new : ℤ → ℤ → Order
      new original discount = cart_order user_id input reads (first.0).product_id original discount

      written : Order → World E → Result Order × World E
      written order =
          for_each (write_line E order) (first ∷ rest) >> (clear_cart E user_id >> pure order)

      ordered : ℤ → ℤ → World E → Result Order × World E
      ordered original discount = create_order E (new original discount) >>= written

  checkout_items-keeps :
      (user_id : ℕ) (input : CheckoutCartInput) (reads : CheckoutReads)
      (items : List (CartItem × Product)) (w : World E)
      → J w.db
      → J (checkout_items E user_id input reads items w).1.db
  unfolding checkout_items
  checkout_items-keeps user_id input reads [] w b = b
  checkout_items-keeps user_id input reads (first ∷ rest) w b =
      place_cart_order-keeps user_id input reads first rest w b

  checkout_tx-keeps :
      (user_id : ℕ) (input : CheckoutCartInput) (reads : CheckoutReads) (w : World E)
      → J w.db
      → J (checkout_tx E user_id input reads w).1.db
  unfolding checkout_tx
  checkout_tx-keeps user_id input reads w b =
      elim (Result-cases
        (E.addresses.first (owns_address input.address_id user_id) w.db.addresses)) [
          | inr (e, missing) ↦ ground arith
          | inl (a, found) ↦ elim (Result-cases (load_cart E user_id w)) [
            | inr (e, unread) ↦ ground arith
            | inl (items, read) ↦ ground (arith, checkout_items-keeps user_id input reads items w b)
          ]
        ]

  -- A checkout, whatever its outcome.
  pub checkout_cart-keeps :
      (user_id : ℕ) (input : CheckoutCartInput) (reads : CheckoutReads) (w : World E)
      → J w.db
      → J (checkout_cart E user_id input reads w).1.db
  unfolding checkout_cart
  checkout_cart-keeps user_id input reads w b =
      report-keeps E J _ _ (transaction E (checkout_tx E user_id input reads) w)
        (λ e v. log-keeps E J K.quiet _ _ _ _ _ v) (λ a v. log-keeps E J K.quiet _ _ _ _ _ v)
        (transaction-keeps E J (checkout_tx E user_id input reads) w b
          (λ r done. checkout_tx-keeps user_id input reads w b))
