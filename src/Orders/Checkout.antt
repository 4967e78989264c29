-- ===== src/Orders/Checkout.antt =====
-- `CheckoutCart` of internal/service/order.go.
use go_order_lab.Prelude.{
  ℕ, Bool, false, ◌&&◌, ◌||◌, none, some, List, [], ◌∷◌, ◌++◌, Result, ok, err, failure, Action,
  query, query_or, pure, raise, raise_if, ◌>>=◌, ◌>>◌, ℤ, pos, ltb_ℤ, leb_ℤ, ◌+ℤ◌, ◌-ℤ◌, ◌*ℤ◌,
  wrap64, Text, codes, ◌==◌, if◌then◌else◌, execute,
}
use go_order_lab.Store.Rows.{has_id, find_first}
use go_order_lab.Model.{
  Address, Product, product_columns, CartItem, Order, OrderItem, wait_pay, no_base,
}
use go_order_lab.Env.{
  Env, World, transaction, save_product, create_order, create_order_item, put_cart_items, for_each,
  log, report,
}
use go_order_lab.Orders.Service.{error_text, print_int, success, failed}
use go_order_lab.Orders.Coupon.{apply_coupon}

pub record CheckoutCartInput : Type 0 where
  pub address_id : ℕ
  pub user_coupon_id : ℕ

-- The random texts and the clock.
pub record CheckoutReads : Type 0 where
  pub order_no : Text
  pub request_id : Text
  pub now : ℤ

-- The `Product` of a cart item whose product is gone.
abbrev pub zero_product : Product
zero_product = record { base = no_base; name = []; price = pos 0; stock = pos 0 }

abbrev pub owns_address : ℕ → ℕ → Address → Bool
owns_address address_id user_id a = a.id == address_id && a.user_id == user_id

abbrev pub in_cart_of : ℕ → CartItem → Bool
in_cart_of user_id i = i.user_id == user_id

-- `id IN ?`, over the products of the items.
abbrev pub is_product_of : List CartItem → Product → Bool
is_product_of [] p = false
is_product_of (i ∷ is) p = has_id product_columns i.product_id p || is_product_of is p

-- The item with the product that `Preload` read.
abbrev pub with_product : List Product → CartItem → CartItem × Product
with_product ps i = elim (find_first (has_id product_columns i.product_id) ps) [
  | none ↦ (i, zero_product)
  | some p ↦ (i, p)
]

abbrev pub with_products : List Product → List CartItem → List (CartItem × Product)
with_products ps [] = []
with_products ps (i ∷ is) = with_product ps i ∷ with_products ps is

-- What is paid: never less than nothing.
abbrev pub pay_amount : ℤ → ℤ → ℤ
pay_amount original discount =
    let rest = wrap64 (original -ℤ discount) in if ltb_ℤ rest (pos 0) then pos 0 else rest

abbrev pub cart_order : ℕ → CheckoutCartInput → CheckoutReads → ℕ → ℤ → ℤ → Order
cart_order user_id input reads product_id original discount = record {
  base = no_base;
  order_no = reads.order_no;
  request_id = codes "cart_" ++ reads.request_id;
  user_id = user_id;
  product_id = product_id;
  activity_id = 0;
  activity_order_key = none;
  address_id = input.address_id;
  user_coupon_id = input.user_coupon_id;
  original_amount = original;
  discount_amount = discount;
  amount = pay_amount original discount;
  status = wait_pay;
}

module _ (E : Env) where
  -- `tx.Preload("Product").Where("user_id = ?").Find(&cartItems)`
  unfoldable pub load_cart : ℕ → World E → Result (List (CartItem × Product))
  load_cart user_id w = elim (E.cart_items.find (in_cart_of user_id) w.db.cart_items) [
    | err e ↦ err e
    | ok [] ↦ ok []
    | ok (i ∷ is) ↦ elim (E.products.find (is_product_of (i ∷ is)) w.db.products) [
      | err e ↦ err e
      | ok ps ↦ ok (with_products ps (i ∷ is))
    ]
  ]

  -- A round of the loop over the cart: the stock is taken, the price added.
  unfoldable pub take_item : CartItem → ℤ → Action (World E) ℤ
  take_item item amount = do
    raise_if (leb_ℤ item.quantity (pos 0)) (failure (codes "invalid cart item quantity"))
    product ←
        query_or (failure (codes "product not found"))
          (λ w. E.products.first (has_id product_columns item.product_id) w.db.products)
    raise_if (ltb_ℤ product.stock item.quantity)
        (failure (codes "product " ++ product.name ++ codes " stock is not enough"))
    save_product E (record product { stock = wrap64 (product.stock -ℤ item.quantity) })
    pure (wrap64 (amount +ℤ wrap64 (product.price *ℤ item.quantity)))

  unfoldable pub take_items : List (CartItem × Product) → ℤ → Action (World E) ℤ
  unfolding take_item
  take_items [] amount = pure amount
  take_items ((item, _) ∷ items) amount = take_item item amount >>= take_items items

  -- The order's line carries the name and the price that were read with the cart.
  abbrev pub order_line : Order → CartItem × Product → OrderItem
  order_line order (item, product) = record {
    base = no_base;
    order_id = order.id;
    order_no = order.order_no;
    product_id = item.product_id;
    product_name = product.name;
    price = product.price;
    quantity = item.quantity;
  }

  unfoldable pub write_line : Order → CartItem × Product → Action (World E) (Unit {0})
  write_line order line = create_order_item E (order_line order line) >> pure tt

  unfoldable pub clear_cart : ℕ → Action (World E) (Unit {0})
  clear_cart user_id =
      execute (λ w. E.cart_items.delete (in_cart_of user_id) w.db.cart_items) (put_cart_items E)

  -- The part of the transaction behind the reading of the cart, which is not empty.
  unfoldable pub place_cart_order :
      ℕ
      → CheckoutCartInput
      → CheckoutReads
      → CartItem × Product
      → List (CartItem × Product)
      → Action (World E) Order
  unfolding take_items apply_coupon write_line clear_cart
  place_cart_order user_id input reads first rest = do
    original ← take_items (first ∷ rest) (pos 0)
    discount ← apply_coupon E user_id input.user_coupon_id original reads.now
    order ← create_order E (cart_order user_id input reads (first.0).product_id original discount)
    for_each (write_line order) (first ∷ rest)
    clear_cart user_id
    pure order

  unfoldable pub checkout_items :
      ℕ → CheckoutCartInput → CheckoutReads → List (CartItem × Product) → Action (World E) Order
  unfolding place_cart_order
  checkout_items user_id input reads [] = raise (failure (codes "cart is empty"))
  checkout_items user_id input reads (first ∷ rest) =
      place_cart_order user_id input reads first rest

  unfoldable pub checkout_tx : ℕ → CheckoutCartInput → CheckoutReads → Action (World E) Order
  unfolding load_cart checkout_items
  checkout_tx user_id input reads = do
    query_or (failure (codes "address not found"))
        (λ w. E.addresses.first (owns_address input.address_id user_id) w.db.addresses)
    items ← query (load_cart user_id)
    checkout_items user_id input reads items

  unfoldable pub checkout_cart : ℕ → CheckoutCartInput → CheckoutReads → Action (World E) Order
  unfolding checkout_tx log error_text print_int
  checkout_cart user_id input reads w =
      report (λ e. log E (codes "checkout_cart_failed") [] user_id failed (error_text e))
        (λ order. log E (codes "checkout_cart") order.order_no user_id success (
          codes "amount="
          ++ print_int order.amount
          ++ codes " discount="
          ++ print_int order.discount_amount))
        (transaction E (checkout_tx user_id input reads) w)
