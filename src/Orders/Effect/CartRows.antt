-- ===== src/Orders/Effect/CartRows.antt =====
-- The rows of a cart that CheckoutCart of internal/service/order.go reads, and deletes.
use go_order_lab.Prelude.{
  ℕ, ◌≡◌, refl, ap, ◌∙◌, Bool, false, List, [], ◌∷◌, ok, arith, Result-cases, Option-cases,
  Bool-cases, inl, inr,
}
use go_order_lab.Store.Rows.{any, delete_where, select, find_first, has_id}
use go_order_lab.Model.{CartItem, Product, product_columns}
use go_order_lab.Env.{Env, World}
use go_order_lab.Orders.Checkout.{
  in_cart_of, is_product_of, with_product, with_products, load_cart, clear_cart,
}
use go_order_lab.Orders.Effect.Charged.{items_of}

none_after_delete : (p : CartItem → Bool) (xs : List CartItem) → any p (delete_where p xs) ≡ false
none_after_delete p [] = refl
none_after_delete p (x ∷ xs) = elim (Bool-cases (p x)) [
  | inl hit ↦ rw hit (none_after_delete p xs)
  | inr miss ↦ rw (miss, none_after_delete p xs) (rw miss refl)
]

module _ (E : Env) (user_id : ℕ) where
  pub clear_cart-empties :
      (w : World E)
      → (clear_cart E user_id w).0 ≡ ok tt
      → any (in_cart_of user_id) (E.cart_items.rows (clear_cart E user_id w).1.db.cart_items)
        ≡ false
  unfolding clear_cart
  clear_cart-empties w h =
      elim (Result-cases (E.cart_items.delete (in_cart_of user_id) w.db.cart_items)) [
        | inr (x, e) ↦ absurd (ground arith)
        | inl ((u, s), e) ↦
            (let rows = E.cart_items.delete_ok (in_cart_of user_id) w.db.cart_items s e in
              let gone : any (in_cart_of user_id) (E.cart_items.rows s) ≡ false =
                rw rows
                  (none_after_delete (in_cart_of user_id) (E.cart_items.rows w.db.cart_items)) in
              let last : (clear_cart E user_id w).1.db.cart_items ≡ s = ground arith in
              rw last gone)
      ]

  with_product_lem : (ps : List Product) (i : CartItem) → (with_product ps i).0 ≡ i
  with_product_lem ps i =
      elim (Option-cases (find_first (has_id product_columns i.product_id) ps)) [
        | inl gone ↦ rw (with_product, gone) refl
        | inr (p, found) ↦ rw (with_product, found) refl
      ]

  with_products_lem :
      (ps : List Product) (is : List CartItem) → items_of E (with_products ps is) ≡ is
  with_products_lem ps [] = refl
  with_products_lem ps (i ∷ is) = λ k. with_product_lem ps i k ∷ with_products_lem ps is k

  pub load_cart_lem :
      (w : World E) (items : List (CartItem × Product))
      → load_cart E user_id w ≡ ok items
      → items_of E items ≡ select (in_cart_of user_id) (E.cart_items.rows w.db.cart_items)
  unfolding load_cart
  load_cart_lem w items h =
      elim (Result-cases (E.cart_items.find (in_cart_of user_id) w.db.cart_items)) [
        | inr (e, unread) ↦ absurd (ground arith)
        | inl (is, found) ↦
            by_items is found ∙ E.cart_items.find_ok (in_cart_of user_id) w.db.cart_items is found
      ]
    where
      by_items :
          (is : List CartItem)
          → E.cart_items.find (in_cart_of user_id) w.db.cart_items ≡ ok is
          → items_of E items ≡ is
      by_items [] found =
          let same : ◌≡◌ {A = List (CartItem × Product)} items [] = ground arith in
          ap (items_of E) same
      by_items (i ∷ is) found =
          elim (Result-cases (E.products.find (is_product_of (i ∷ is)) w.db.products)) [
            | inr (e, unread) ↦ absurd (ground arith)
            | inl (ps, known) ↦
                (let same : ◌≡◌ {A = List (CartItem × Product)} items (with_products ps (i ∷ is)) =
                    ground arith in
                  ap (items_of E) same ∙ with_products_lem ps (i ∷ is))
          ]
