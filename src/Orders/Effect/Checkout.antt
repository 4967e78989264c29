-- ===== src/Orders/Effect/Checkout.antt =====
-- What a checkout has done when it reports no error.
use go_order_lab.Prelude.{
  ℕ, ◌≡◌, refl, subst, ap, ◌∙◌, sym, true, false, ◌⊎◌, List, [], ◌∷◌, Result, ok, ℤ, pos, ◌-ℤ◌,
  wrap64, ltb_ℤ, Action, arith, Result-cases, Bool-cases, inl, inr, ◌>>=◌, ◌>>◌, pure,
}
use go_order_lab.Store.Rows.{any, select, stamp_new}
use go_order_lab.Model.{Order, order_columns, CartItem, Product, wait_pay}
use go_order_lab.Env.{Env, Db, World, transaction, report, create_order, for_each}
use go_order_lab.Env.Laws.{transaction_ok, log-keeps}
use go_order_lab.Orders.Coupon.{apply_coupon}
use go_order_lab.Orders.Checkout.{
  CheckoutCartInput, CheckoutReads, in_cart_of, owns_address, load_cart, cart_order, take_items,
  write_line, clear_cart, place_cart_order, checkout_items, checkout_tx, checkout_cart,
}
use go_order_lab.Orders.Effect.Charged.{bind_ok, cart_price, items_of, take_items_lem}
use go_order_lab.Orders.Effect.CartRows.{clear_cart-empties, load_cart_lem}
use go_order_lab.Orders.Effect.Redeemed.{Discounted, apply_coupon-Discounted}

module _ (E : Env) (user_id : ℕ) where
  -- What is left of a price, but never less than nothing, in 64 bits.
  abbrev pub ToPay : Order → Type 0
  ToPay o =
      (ltb_ℤ (wrap64 (o.original_amount -ℤ o.discount_amount)) (pos 0) ≡ true × (o.amount ≡ pos 0))
      ⊎ (ltb_ℤ (wrap64 (o.original_amount -ℤ o.discount_amount)) (pos 0) ≡ false
          × (o.amount ≡ wrap64 (o.original_amount -ℤ o.discount_amount)))

  -- The order that is written for a price and a discount.
  record Written (original discount : ℤ) (order : Order) (d : Db E) : Type 0 where
    waits : order.status ≡ wait_pay
    owner : order.user_id ≡ user_id
    price : order.original_amount ≡ original
    cut : order.discount_amount ≡ discount
    to_pay : ToPay order
    cart_empty : any (in_cart_of user_id) (E.cart_items.rows d.cart_items) ≡ false

  -- The order waits to be paid, for the price of the user's cart less the discount of the coupon, and
  -- the user's cart is empty.
  pub record CheckedOut (input : CheckoutCartInput) (now : ℤ) (w : World E) (order : Order)
      (d : Db E) : Type 0 where
    pub waits : order.status ≡ wait_pay
    pub owner : order.user_id ≡ user_id
    pub price :
        order.original_amount
        ≡ cart_price
            (E.products.rows w.db.products)
            (select (in_cart_of user_id) (E.cart_items.rows w.db.cart_items))
            (pos 0)
    pub coupon :
        Discounted E user_id input.user_coupon_id order.original_amount now w order.discount_amount
    pub to_pay : ToPay order
    pub cart_empty : any (in_cart_of user_id) (E.cart_items.rows d.cart_items) ≡ false

  module _ (input : CheckoutCartInput) (reads : CheckoutReads) where
    module _ (first : CartItem × Product) (rest : List (CartItem × Product)) where
      abbrev new : ℤ → ℤ → Order
      new original discount = cart_order user_id input reads (first.0).product_id original discount

      new-ToPay :
          (original discount : ℤ) (k : ℕ) (t : E.orders.State)
          → ToPay (stamp_new order_columns k (E.orders.clock t) (new original discount))
      new-ToPay original discount k t =
          elim (Bool-cases (ltb_ℤ (wrap64 (original -ℤ discount)) (pos 0))) [
            | inl less ↦ inl (less, rw less refl)
            | inr more ↦ inr (more, rw more refl)
          ]

      abbrev written : Order → Action (World E) Order
      written order =
          for_each (write_line E order) (first ∷ rest) >> (clear_cart E user_id >> pure order)

      abbrev ordered : ℤ → ℤ → Action (World E) Order
      ordered original discount = create_order E (new original discount) >>= written

      written-CheckedOut :
          (stored order : Order) (w : World E)
          → (written stored w).0 ≡ ok order
          → (stored ≡ order)
            × (any (in_cart_of user_id) (E.cart_items.rows (written stored w).1.db.cart_items)
                ≡ false)
      written-CheckedOut stored order w h =
          let tail : Action (World E) Order = clear_cart E user_id >> pure stored in
          let (u, e, q) =
            bind_ok (for_each (write_line E stored) (first ∷ rest)) (λ _. tail) w order h in
          let w' = (for_each (write_line E stored) (first ∷ rest) w).1 in
          let h' : (tail w').0 ≡ ok order = ap (λ m. m.0) (sym q) ∙ h in
          let (v, e', q') = bind_ok (clear_cart E user_id) (λ _. pure stored) w' order h' in
          let both = q ∙ q' in
          let same : ◌≡◌ {A = Result Order} (ok stored) (ok order) = ap (λ m. m.0) (sym both) ∙ h in
          (
            ground arith,
            subst (λ m. any (in_cart_of user_id) (E.cart_items.rows m.1.db.cart_items) ≡ false)
                (sym both) (clear_cart-empties E user_id w' e'),
          )

      ordered-Written :
          (original discount : ℤ) (order : Order) (w : World E)
          → (ordered original discount w).0 ≡ ok order
          → Written original discount order (ordered original discount w).1.db
      ordered-Written original discount order w h =
          let (stored, e, q) = bind_ok (create_order E (new original discount)) written w order h in
          let w' = (create_order E (new original discount) w).1 in
          let (same, empty) = written-CheckedOut stored order w' (ap (λ m. m.0) (sym q) ∙ h) in
          elim (Result-cases (E.orders.create (new original discount) w.db.orders)) [
            | inr (x, refused) ↦ absurd (ground arith)
            | inl ((row, t), made) ↦
                (let own : row ≡ stored = ground arith in
                  let (shape, _, _) =
                    E.orders.create_ok (new original discount) w.db.orders row t made in
                  subst (λ o. Written original discount o (ordered original discount w).1.db)
                    (own ∙ same)
                    (record {
                      waits = ap (λ o. o.status) shape;
                      owner = ap (λ o. o.user_id) shape;
                      price = ap (λ o. o.original_amount) shape;
                      cut = ap (λ o. o.discount_amount) shape;
                      to_pay =
                          subst ToPay (sym shape) (new-ToPay original discount row.id w.db.orders);
                      cart_empty =
                          subst
                            (λ m.
                              any (in_cart_of user_id) (E.cart_items.rows m.1.db.cart_items)
                              ≡ false)
                            (sym q) empty;
                    }))
          ]

      place_cart_order-CheckedOut :
          (order : Order) (w : World E)
          → items_of E (first ∷ rest)
            ≡ select (in_cart_of user_id) (E.cart_items.rows w.db.cart_items)
          → (place_cart_order E user_id input reads first rest w).0 ≡ ok order
          → CheckedOut input reads.now w order
              (place_cart_order E user_id input reads first rest w).1.db
      unfolding place_cart_order
      place_cart_order-CheckedOut order w cart h =
          let applied : ℤ → Action (World E) Order = λ original.
            apply_coupon E user_id input.user_coupon_id original reads.now >>= ordered original in
          let (original, e, q) = bind_ok (take_items E (first ∷ rest) (pos 0)) applied w order h in
          let w' = (take_items E (first ∷ rest) (pos 0) w).1 in
          let (taken, sum) = take_items_lem E (first ∷ rest) (pos 0) w original e in
          let (discount, e', q') =
            bind_ok (apply_coupon E user_id input.user_coupon_id original reads.now)
              (ordered original) w' order (ap (λ m. m.0) (sym q) ∙ h) in
          let w'' = (apply_coupon E user_id input.user_coupon_id original reads.now w').1 in
          let both = q ∙ q' in
          let cut : Discounted E user_id input.user_coupon_id original reads.now w discount =
            subst (λ v. Discounted E user_id input.user_coupon_id original reads.now v discount)
              taken.rest
              (apply_coupon-Discounted E user_id input.user_coupon_id original reads.now w' discount
                e') in
          let o = ordered-Written original discount order w'' (ap (λ m. m.0) (sym both) ∙ h) in
          record {
            waits = o.waits;
            owner = o.owner;
            price =
                o.price
                ∙ sum
                ∙ ap (λ is. cart_price (E.products.rows w.db.products) is (pos 0)) cart;
            coupon =
                subst
                  (λ p.
                    Discounted E user_id input.user_coupon_id p reads.now w order.discount_amount)
                  (sym o.price)
                  (subst (Discounted E user_id input.user_coupon_id original reads.now w)
                    (sym o.cut) cut);
            to_pay = o.to_pay;
            cart_empty =
                subst (λ m. any (in_cart_of user_id) (E.cart_items.rows m.1.db.cart_items) ≡ false)
                  (sym both) o.cart_empty;
          }

    checkout_items-CheckedOut :
        (items : List (CartItem × Product)) (order : Order) (w : World E)
        → items_of E items ≡ select (in_cart_of user_id) (E.cart_items.rows w.db.cart_items)
        → (checkout_items E user_id input reads items w).0 ≡ ok order
        → CheckedOut input reads.now w order (checkout_items E user_id input reads items w).1.db
    unfolding checkout_items
    checkout_items-CheckedOut [] order w cart h = absurd (ground arith)
    checkout_items-CheckedOut (first ∷ rest) order w cart h =
        place_cart_order-CheckedOut first rest order w cart h

    checkout_tx-CheckedOut :
        (order : Order) (w : World E)
        → (checkout_tx E user_id input reads w).0 ≡ ok order
        → CheckedOut input reads.now w order (checkout_tx E user_id input reads w).1.db
    unfolding checkout_tx
    checkout_tx-CheckedOut order w h =
        elim (Result-cases
          (E.addresses.first (owns_address input.address_id user_id) w.db.addresses)) [
            | inr (e, missing) ↦ absurd (ground arith)
            | inl (a, found) ↦ elim (Result-cases (load_cart E user_id w)) [
              | inr (e, unread) ↦ absurd (ground arith)
              | inl (items, loaded) ↦
                  (let last : checkout_tx E user_id input reads w
                        ≡ checkout_items E user_id input reads items w =
                      ground arith in
                    subst (λ m. CheckedOut input reads.now w order m.1.db) (sym last)
                      (checkout_items-CheckedOut items order w
                        (load_cart_lem E user_id w items loaded) (ap (λ m. m.0) (sym last) ∙ h)))
            ]
          ]

    -- A checkout that reports no error gives an order of the user that waits to be paid, and leaves the
    -- user's cart empty. The original amount is the price of the items in the cart before, at the
    -- prices of the products then; the discount is 0 where no coupon was named, and else that of an
    -- unused coupon of the user, in its time, whose threshold the price reaches; the amount is the
    -- difference but never less than 0. All of it is in 64 bits.
    pub checkout_cart-CheckedOut :
        (order : Order) (w : World E)
        → (checkout_cart E user_id input reads w).0 ≡ ok order
        → CheckedOut input reads.now w order (checkout_cart E user_id input reads w).1.db
    unfolding checkout_cart
    checkout_cart-CheckedOut order w h =
        let m = checkout_tx E user_id input reads in
        elim (Result-cases (transaction E m w).0) [
          | inr (x, e) ↦ absurd (ground arith)
          | inl (o, e) ↦
              (let (done, last) = transaction_ok E m w o e in
                let same : o ≡ order = ground arith in
                let c : CheckedOut input reads.now w o (transaction E m w).1.db =
                  rw last (checkout_tx-CheckedOut o w done) in
                subst
                  (λ o. CheckedOut input reads.now w o (checkout_cart E user_id input reads w).1.db)
                  same
                  (rw (checkout_cart, e, report)
                    (log-keeps E (CheckedOut input reads.now w o)
                      (λ d s k. record {
                        waits = k.waits;
                        owner = k.owner;
                        price = k.price;
                        coupon = k.coupon;
                        to_pay = k.to_pay;
                        cart_empty = k.cart_empty;
                      })
                      _ _ _ _ _ (transaction E m w).1 c)))
        ]
