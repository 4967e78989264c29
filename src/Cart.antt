-- ===== src/Cart.antt =====
-- `CartService` of internal/service/cart.go. A returned item comes with the product that is read again,
-- as far as the reads succeed.
pub mod Owners
use go_order_lab.Prelude.{
  ℕ, Bool, true, false, ◌&&◌, Option, none, some, List, map, reverse, Result, ok, err, Error,
  record_not_found, failure, Action, query, query_or, pure, raise, raise_if, ◌>>=◌, ◌>>◌, ℤ, pos,
  ltb_ℤ, leb_ℤ, ◌+ℤ◌, wrap64, codes, ◌==◌, if◌then◌else◌, execute,
}
use go_order_lab.Store.Rows.{has_id, find_first}
use go_order_lab.Model.{CartItem, cart_item_columns, Product, product_columns, no_base}
use go_order_lab.Env.{Env, World, transaction, save_cart_item, create_cart_item, put_cart_items}
use go_order_lab.Orders.Checkout.{in_cart_of}

pub record AddCartItemInput : Type 0 where
  pub product_id : ℕ
  pub quantity : ℤ

abbrev pub is_line : ℕ → ℕ → CartItem → Bool
is_line user_id product_id i = i.user_id == user_id && i.product_id == product_id

abbrev pub owns_item : ℕ → ℕ → CartItem → Bool
owns_item user_id item_id i = i.id == item_id && i.user_id == user_id

abbrev pub new_item : ℕ → AddCartItemInput → CartItem
new_item user_id input = record {
  base = no_base;
  user_id = user_id;
  product_id = input.product_id;
  quantity = input.quantity;
}

-- An error other than that no row was found ends the transaction.
abbrev pub is_missing : Error → Bool
is_missing record_not_found = true
is_missing _ = false

module _ (E : Env) where
  abbrev pub add_to : CartItem → ℤ → Action (World E) CartItem
  add_to item quantity =
      let item' = record item { quantity = wrap64 (item.quantity +ℤ quantity) } in
      save_cart_item E item' >> pure item'

  -- The transaction of `AddItem`.
  unfoldable pub add_tx : ℕ → AddCartItemInput → Action (World E) CartItem
  add_tx user_id input w =
      elim (E.cart_items.first (is_line user_id input.product_id) w.db.cart_items) [
        | ok item ↦ add_to item input.quantity w
        | err e ↦ if is_missing e then create_cart_item E (new_item user_id input) w else (err e, w)
      ]

  abbrev pub with_product : CartItem → World E → CartItem × Option Product
  with_product i w = elim (E.cart_items.first (has_id cart_item_columns i.id) w.db.cart_items) [
    | err _ ↦ (i, none)
    | ok i' ↦ elim (E.products.first (has_id product_columns i'.product_id) w.db.products) [
      | err _ ↦ (i', none)
      | ok p ↦ (i', some p)
    ]
  ]

  unfoldable pub add_item : ℕ → AddCartItemInput → Action (World E) (CartItem × Option Product)
  unfolding add_tx
  add_item user_id input = do
    raise_if (leb_ℤ input.quantity (pos 0)) (failure (codes "quantity must be positive"))
    product ←
        query_or (failure (codes "product not found"))
          (λ w. E.products.first (has_id product_columns input.product_id) w.db.products)
    raise_if (ltb_ℤ product.stock input.quantity) (failure (codes "product stock is not enough"))
    item ← transaction E (add_tx user_id input)
    λ w. (ok (with_product item w), w)

  abbrev pub product_of : List Product → CartItem → CartItem × Option Product
  product_of ps i = (i, find_first (has_id product_columns i.product_id) ps)

  unfoldable pub list : ℕ → World E → Result (List (CartItem × Option Product))
  list user_id w = elim (E.cart_items.find (in_cart_of user_id) w.db.cart_items) [
    | err e ↦ err e
    | ok items ↦ elim (E.products.find (λ _. true) w.db.products) [
      | err e ↦ err e
      | ok ps ↦ ok (map (product_of ps) (reverse items))
    ]
  ]

  unfoldable pub update_quantity : ℕ → ℕ → ℤ → Action (World E) (CartItem × Option Product)
  update_quantity user_id item_id quantity = do
    raise_if (leb_ℤ quantity (pos 0)) (failure (codes "quantity must be positive"))
    item ←
        query_or (failure (codes "cart item not found"))
          (λ w. E.cart_items.first (owns_item user_id item_id) w.db.cart_items)
    save_cart_item E (record item { quantity = quantity })
    λ w. (ok (with_product (record item { quantity = quantity }) w), w)

  unfoldable pub delete_item : ℕ → ℕ → Action (World E) (Unit {0})
  delete_item user_id item_id =
      execute (λ w. E.cart_items.delete (owns_item user_id item_id) w.db.cart_items)
        (put_cart_items E)
