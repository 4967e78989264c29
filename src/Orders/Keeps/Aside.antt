-- ===== src/Orders/Keeps/Aside.antt =====
-- What the parts of CheckoutCart of internal/service/order.go keep that write to the tables of coupons,
-- order lines and carts.
use go_order_lab.Prelude.{ℕ, List, [], ◌∷◌, ℤ, arith, Result-cases, inl, inr, pure}
use go_order_lab.Env.{
  Env, Db, World, for_each, create_order_item, put_user_coupons, put_order_items, put_cart_items,
}
use go_order_lab.Env.Laws.{bind-keeps, execute-keeps}
use go_order_lab.Model.{Order, CartItem, Product, used, expired, UserCoupon, Coupon}
use go_order_lab.Orders.Coupon.{
  apply_coupon, use_coupon, expire_coupon, preload_coupon, owns_coupon,
}
use go_order_lab.Orders.Checkout.{write_line, clear_cart, order_line, in_cart_of}

module _ (E : Env) (J : Db E → Type 0) where
  module _
      (aside : (d : Db E) (s : E.user_coupons.State)
        → J d
        → J (record d { user_coupons = s })) where
    expire_coupon-keeps : (c : UserCoupon) (w : World E) → J w.db → J (expire_coupon E c w).db
    unfolding expire_coupon
    expire_coupon-keeps c w b =
        execute-keeps E J
          (λ w. E.user_coupons.save (record c { status = expired }) w.db.user_coupons)
          (put_user_coupons E) w b (λ s. aside w.db s b)

    use_coupon-keeps :
        (c : UserCoupon) (coupon : Coupon) (amount now : ℤ) (w : World E)
        → J w.db
        → J (use_coupon E c coupon amount now w).1.db
    unfolding use_coupon
    use_coupon-keeps c coupon amount now w b =
        elim (Result-cases (E.user_coupons.save (record c { status = used }) w.db.user_coupons)) [
          | inr (e, failed) ↦ ground (arith, expire_coupon-keeps c w b)
          | inl ((u, s), saved) ↦ ground (arith, expire_coupon-keeps c w b, aside w.db s b)
        ]

    pub apply_coupon-keeps :
        (user_id user_coupon_id : ℕ) (amount now : ℤ) (w : World E)
        → J w.db
        → J (apply_coupon E user_id user_coupon_id amount now w).1.db
    unfolding apply_coupon
    apply_coupon-keeps user_id user_coupon_id amount now w b =
        elim (Result-cases
          (E.user_coupons.first (owns_coupon user_coupon_id user_id) w.db.user_coupons)) [
            | inr (e, missing) ↦ ground arith
            | inl (c, found) ↦ elim (Result-cases (preload_coupon E c w)) [
              | inr (e, unread) ↦ ground arith
              | inl (coupon, read) ↦ ground (arith, use_coupon-keeps c coupon amount now w b)
            ]
          ]

  module _
      (aside : (d : Db E) (s : E.order_items.State) → J d → J (record d { order_items = s })) where
    pub lines-keeps :
        (order : Order) (lines : List (CartItem × Product)) (w : World E)
        → J w.db
        → J (for_each (write_line E order) lines w).1.db
    unfolding write_line
    lines-keeps order [] w b = b
    lines-keeps order (l ∷ ls) w b =
        bind-keeps E J (write_line E order l) (λ _. for_each (write_line E order) ls) w
          (bind-keeps E J (create_order_item E (order_line E order l)) (λ _. pure tt) w
            (execute-keeps E J (λ w. E.order_items.create (order_line E order l) w.db.order_items)
              (put_order_items E) w b (λ s. aside w.db s b))
            (λ _ v c. c))
          (λ _ v c. lines-keeps order ls v c)

  module _
      (aside : (d : Db E) (s : E.cart_items.State) → J d → J (record d { cart_items = s })) where
    pub clear_cart-keeps : (user_id : ℕ) (w : World E) → J w.db → J (clear_cart E user_id w).1.db
    unfolding clear_cart
    clear_cart-keeps user_id w b =
        execute-keeps E J (λ w. E.cart_items.delete (in_cart_of user_id) w.db.cart_items)
          (put_cart_items E) w b (λ s. aside w.db s b)
