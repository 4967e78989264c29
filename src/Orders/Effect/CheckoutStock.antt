-- ===== src/Orders/Effect/CheckoutStock.antt =====
-- CheckoutCart of internal/service/order.go sells what is in the cart, or nothing.
use go_order_lab.Prelude.{
  ℕ, ◌≡◌, refl, subst, ap, ◌∙◌, sym, ◌⊎◌, List, [], ◌∷◌, ok, err, Error, ℤ, pos, Action, arith,
  Result-cases, inl, inr, ◌>>=◌, ◌>>◌, pure,
}
use go_order_lab.Store.Rows.{select}
use go_order_lab.Model.{Order, Product, CartItem}
use go_order_lab.Env.{Env, Db, World, put_orders, create_order, for_each, transaction, report}
use go_order_lab.Env.Laws.{bind-keeps, execute-keeps, transaction_ok, log-keeps}
use go_order_lab.Env.Atomic.{SameTables}
use go_order_lab.Orders.Atomic.{checkout_cart-atomic}
use go_order_lab.Orders.Coupon.{apply_coupon}
use go_order_lab.Orders.Checkout.{
  CheckoutCartInput, CheckoutReads, in_cart_of, owns_address, load_cart, cart_order, take_items,
  write_line, clear_cart, place_cart_order, checkout_items, checkout_tx, checkout_cart,
}
use go_order_lab.Orders.Keeps.Aside.{apply_coupon-keeps, lines-keeps, clear_cart-keeps}
use go_order_lab.Orders.Effect.Charged.{bind_ok, items_of}
use go_order_lab.Orders.Effect.CartRows.{load_cart_lem}
use go_order_lab.Orders.Effect.Sold.{InRange, Sells}
use go_order_lab.Orders.Effect.Selling.{products_of, take_items-Sells}

module _ (E : Env) (user_id : ℕ) (input : CheckoutCartInput) (reads : CheckoutReads) where
  module _ (first : CartItem × Product) (rest : List (CartItem × Product)) where
    abbrev new : ℤ → ℤ → Order
    new original discount = cart_order user_id input reads (first.0).product_id original discount

    abbrev written : Order → Action (World E) Order
    written order =
        for_each (write_line E order) (first ∷ rest) >> (clear_cart E user_id >> pure order)

    abbrev applied : ℤ → Action (World E) Order
    applied original =
        apply_coupon E user_id input.user_coupon_id original reads.now >>= λ discount.
        create_order E (new original discount) >>= written

    -- What follows the loop leaves the products alone.
    products_aside :
        (original : ℤ) (w : World E) → (applied original w).1.db.products ≡ w.db.products
    products_aside original w =
        let J : Db E → Type 0 = λ d. d.products ≡ w.db.products in
        bind-keeps E J (apply_coupon E user_id input.user_coupon_id original reads.now)
          (λ discount. create_order E (new original discount) >>= written) w
          (apply_coupon-keeps E J (λ d s h. h) user_id input.user_coupon_id original reads.now w
            refl)
          (λ discount v h.
            bind-keeps E J (create_order E (new original discount)) written v
              (execute-keeps E J (λ w. E.orders.create (new original discount) w.db.orders)
                (put_orders E) v h (λ s. h))
              (λ order v' h'.
                bind-keeps E J (for_each (write_line E order) (first ∷ rest))
                  (λ _. clear_cart E user_id >> pure order) v'
                  (lines-keeps E J (λ d s h. h) order (first ∷ rest) v' h')
                  (λ _ u k.
                    bind-keeps E J (clear_cart E user_id) (λ _. pure order) u
                      (clear_cart-keeps E J (λ d s h. h) user_id u k) (λ _ t f. f))))

    place_cart_order-Sells :
        (order : Order) (w : World E)
        → InRange (products_of E w)
        → (place_cart_order E user_id input reads first rest w).0 ≡ ok order
        → Sells
            (products_of E w)
            (products_of E (place_cart_order E user_id input reads first rest w).1)
            (items_of E (first ∷ rest))
    unfolding place_cart_order
    place_cart_order-Sells order w range h =
        let (original, e, q) = bind_ok (take_items E (first ∷ rest) (pos 0)) applied w order h in
        let w' = (take_items E (first ∷ rest) (pos 0) w).1 in
        let end : (place_cart_order E user_id input reads first rest w).1.db.products
            ≡ w'.db.products =
          ap (λ m. m.1.db.products) q ∙ products_aside original w' in
        subst (λ qs. Sells (products_of E w) qs (items_of E (first ∷ rest)))
          (sym (ap E.products.rows end))
          (take_items-Sells E (first ∷ rest) (pos 0) w original range e)

  checkout_items-Sells :
      (items : List (CartItem × Product)) (order : Order) (w : World E)
      → InRange (products_of E w)
      → (checkout_items E user_id input reads items w).0 ≡ ok order
      → Sells
          (products_of E w)
          (products_of E (checkout_items E user_id input reads items w).1)
          (items_of E items)
  unfolding checkout_items
  checkout_items-Sells [] order w range h = absurd (ground arith)
  checkout_items-Sells (first ∷ rest) order w range h =
      place_cart_order-Sells first rest order w range h

  -- The user's cart, as it is before.
  abbrev pub cart_of : World E → List CartItem
  cart_of w = select (in_cart_of user_id) (E.cart_items.rows w.db.cart_items)

  checkout_tx-Sells :
      (order : Order) (w : World E)
      → InRange (products_of E w)
      → (checkout_tx E user_id input reads w).0 ≡ ok order
      → Sells (products_of E w) (products_of E (checkout_tx E user_id input reads w).1) (cart_of w)
  unfolding checkout_tx
  checkout_tx-Sells order w range h =
      elim (Result-cases
        (E.addresses.first (owns_address input.address_id user_id) w.db.addresses)) [
          | inr (e, missing) ↦ absurd (ground arith)
          | inl (a, found) ↦ elim (Result-cases (load_cart E user_id w)) [
            | inr (e, unread) ↦ absurd (ground arith)
            | inl (items, loaded) ↦
                (let last : checkout_tx E user_id input reads w
                      ≡ checkout_items E user_id input reads items w =
                    ground arith in
                  subst (λ m. Sells (products_of E w) (products_of E m.1) (cart_of w)) (sym last)
                    (subst
                      (Sells (products_of E w)
                        (products_of E (checkout_items E user_id input reads items w).1))
                      (load_cart_lem E user_id w items loaded)
                      (checkout_items-Sells items order w range (ap (λ m. m.0) (sym last) ∙ h))))
          ]
        ]

  checkout_ok-Sells :
      (order : Order) (w : World E)
      → InRange (products_of E w)
      → (checkout_cart E user_id input reads w).0 ≡ ok order
      → Sells
          (products_of E w)
          (products_of E (checkout_cart E user_id input reads w).1)
          (cart_of w)
  unfolding checkout_cart
  checkout_ok-Sells order w range h =
      let m = checkout_tx E user_id input reads in
      let J : Db E → Type 0 =
        λ d. Sells (products_of E w) (E.products.rows d.products) (cart_of w) in
      elim (Result-cases (transaction E m w).0) [
        | inr (x, e) ↦ absurd (ground arith)
        | inl (o, e) ↦
            (let (done, last) = transaction_ok E m w o e in
              let c : J (transaction E m w).1.db = rw last (checkout_tx-Sells o w range done) in
              rw (checkout_cart, e, report)
                (log-keeps E J (λ d s k. k) _ _ _ _ _ (transaction E m w).1 c))
      ]

  -- Where no product has a negative stock, and all stocks have 64 bits, a checkout either reports no
  -- error, and then the stock of each product has fallen by exactly its units in the user's cart and is
  -- not negative, or it reports an error, and then no table but the log has changed.
  pub checkout_cart-Sells :
      (w : World E)
      → InRange (products_of E w)
      → ((order : Order) × ((checkout_cart E user_id input reads w).0 ≡ ok order)
          × Sells
              (products_of E w)
              (products_of E (checkout_cart E user_id input reads w).1)
              (cart_of w))
        ⊎ ((x : Error) × ((checkout_cart E user_id input reads w).0 ≡ err x)
            × SameTables E w.db (checkout_cart E user_id input reads w).1.db)
  checkout_cart-Sells w range = elim (Result-cases (checkout_cart E user_id input reads w).0) [
    | inl (order, e) ↦ inl (order, e, checkout_ok-Sells order w range e)
    | inr (x, e) ↦ inr (x, e, checkout_cart-atomic E user_id input reads w x e)
  ]
