-- ===== src/Cart/Owners.antt =====
-- A user's calls on the cart leave the items of every other user alone.
use go_order_lab.Prelude.{
  ℕ, ◌≡◌, ◌≢◌, refl, ap, ◌∙◌, Bool, true, false, not, some, ok, ℤ, ◌+ℤ◌, wrap64, List, [], ◌∷◌,
  ◌++◌, arith, ◌==◌, ==_refl, Result-cases, Bool-cases, inl, inr,
}
use go_order_lab.Store.Rows.{
  find_first, find_first-holds, select, upsert, delete_where, Unique, All-find_first, has_id,
}
use go_order_lab.Model.{CartItem, cart_item_columns, product_columns}
use go_order_lab.Env.{Env, Db, World, transaction}
use go_order_lab.Env.Laws.{transaction-keeps}
use go_order_lab.Orders.Checkout.{in_cart_of}
use go_order_lab.Cart.{
  AddCartItemInput, is_line, owns_item, new_item, add_tx, add_item, update_quantity, delete_item,
}

module _ (user_id : ℕ) where
  abbrev pub others : List CartItem → List CartItem
  others = select (λ i. not (in_cart_of user_id i))

  others-upsert :
      (p : CartItem → Bool) (i i' : CartItem) (xs : List CartItem)
      → Unique cart_item_columns xs
      → find_first p xs ≡ some i
      → i'.id ≡ i.id
      → in_cart_of user_id i ≡ true
      → in_cart_of user_id i' ≡ true
      → others (upsert cart_item_columns i' xs) ≡ others xs
  others-upsert p i i' [] u h e mine mine' = cc
  others-upsert p i i' (x ∷ xs) u h e mine mine' = elim (Bool-cases (p x)) [
    | inl hit ↦
        (let same : i ≡ x = ground arith in
          let here : (x.id == i'.id) ≡ true = rw (e, same) (==_refl x.id) in
          let own : in_cart_of user_id x ≡ true = rw same at mine in rw (here, mine', own) refl)
    | inr miss ↦
        (let there : find_first p xs ≡ some i = ground arith in
          let apart : i.id ≢ x.id = All-find_first (λ y. y.id ≢ x.id) p xs i u.0 there in
          let other : (x.id == i'.id) ≡ false = ground arith in
          rw (other, others-upsert p i i' xs u.1 there e mine mine') refl)
  ]

  others-append :
      (i : CartItem) (xs : List CartItem)
      → in_cart_of user_id i ≡ true
      → others (xs ++ i ∷ []) ≡ others xs
  others-append i [] mine = rw mine refl
  others-append i (x ∷ xs) mine = rw (others-append i xs mine) refl

  others-delete :
      (p : CartItem → Bool) (xs : List CartItem)
      → ((i : CartItem) → p i ≡ true → in_cart_of user_id i ≡ true)
      → others (delete_where p xs) ≡ others xs
  others-delete p [] own = refl
  others-delete p (x ∷ xs) own = elim (Bool-cases (p x)) [
    | inl hit ↦ rw (hit, own x hit) (others-delete p xs own)
    | inr miss ↦ rw (miss, others-delete p xs own) refl
  ]

module _ (E : Env) (user_id : ℕ) (xs : List CartItem) where
  -- The items of the other users are `xs`.
  abbrev pub OthersKeep : Db E → Type 0
  OthersKeep d = others user_id (E.cart_items.rows d.cart_items) ≡ xs

  saved_own :
      (p : CartItem → Bool) (i i' : CartItem) (w : World E)
      → ((j : CartItem) → p j ≡ true → in_cart_of user_id j ≡ true)
      → i'.id ≡ i.id
      → i'.user_id ≡ i.user_id
      → E.cart_items.first p w.db.cart_items ≡ ok i
      → (s : E.cart_items.State) → E.cart_items.save i' w.db.cart_items ≡ ok (tt, s)
      → OthersKeep w.db
      → others user_id (E.cart_items.rows s) ≡ xs
  saved_own p i i' w own id user found s saved h =
      let present = E.cart_items.first_ok p w.db.cart_items i found in
      let mine = own i (find_first-holds p (E.cart_items.rows w.db.cart_items) i present) in
      ap (others user_id) (E.cart_items.save_ok i' w.db.cart_items s saved)
      ∙ others-upsert user_id p i _ (E.cart_items.rows w.db.cart_items)
          (E.cart_items.unique w.db.cart_items) present id mine (rw user mine)
      ∙ h

  line_own :
      (product_id : ℕ) (i : CartItem)
      → is_line user_id product_id i ≡ true
      → in_cart_of user_id i ≡ true
  line_own product_id i h = ground arith

  item_own :
      (item_id : ℕ) (i : CartItem)
      → owns_item user_id item_id i ≡ true
      → in_cart_of user_id i ≡ true
  item_own item_id i h = ground arith

  add_tx-OthersKeep :
      (input : AddCartItemInput) (w : World E) (r : CartItem)
      → (add_tx E user_id input w).0 ≡ ok r
      → OthersKeep w.db
      → OthersKeep (add_tx E user_id input w).1.db
  unfolding add_tx
  add_tx-OthersKeep input w r done h =
      let p = is_line user_id input.product_id in
      elim (Result-cases (E.cart_items.first p w.db.cart_items)) [
        | inl (i, found) ↦
            (let i' : CartItem = record i { quantity = wrap64 (i.quantity +ℤ input.quantity) } in
              elim (Result-cases (E.cart_items.save i' w.db.cart_items)) [
                | inr (e, failed) ↦ absurd (ground arith)
                | inl ((u, s), saved) ↦ ground (
                  arith,
                  saved_own p i i' w (line_own input.product_id) refl refl found s saved h,
                )
              ])
        | inr (x, missing) ↦
            elim (Result-cases (E.cart_items.create (new_item user_id input) w.db.cart_items)) [
              | inr (e, refused) ↦ absurd (ground arith)
              | inl ((stored, t), made) ↦
                  (let (row, rows, _) =
                      E.cart_items.create_ok (new_item user_id input) w.db.cart_items stored t
                        made in
                    let mine : in_cart_of user_id stored ≡ true =
                      ap (λ i. i.user_id == user_id) row ∙ ==_refl user_id in
                    let kept : others user_id (E.cart_items.rows t) ≡ xs =
                      ap (others user_id) rows
                      ∙ others-append user_id stored (E.cart_items.rows w.db.cart_items) mine
                      ∙ h in
                    ground (arith, kept))
            ]
      ]

  -- Adding an item, whatever its outcome, leaves the items of all other users as they are.
  pub add_item-OthersKeep :
      (input : AddCartItemInput) (w : World E)
      → OthersKeep w.db
      → OthersKeep (add_item E user_id input w).1.db
  unfolding add_item
  add_item-OthersKeep input w h =
      let kept =
        transaction-keeps E OthersKeep (add_tx E user_id input) w h
          (λ r done. add_tx-OthersKeep input w r done h) in
      elim (Result-cases
        (E.products.first (has_id product_columns input.product_id) w.db.products)) [
          | inr (e, missing) ↦ ground arith
          | inl (q, found) ↦ elim (Result-cases (transaction E (add_tx E user_id input) w).0) [
            | inr (e, failed) ↦ ground (arith, kept)
            | inl (i, done) ↦ ground (arith, kept)
          ]
        ]

  -- So does a change of a quantity.
  pub update_quantity-OthersKeep :
      (item_id : ℕ) (quantity : ℤ) (w : World E)
      → OthersKeep w.db
      → OthersKeep (update_quantity E user_id item_id quantity w).1.db
  unfolding update_quantity
  update_quantity-OthersKeep item_id quantity w h =
      let p = owns_item user_id item_id in
      elim (Result-cases (E.cart_items.first p w.db.cart_items)) [
        | inr (e, missing) ↦ ground arith
        | inl (i, found) ↦
            elim (Result-cases
              (E.cart_items.save (record i { quantity = quantity }) w.db.cart_items)) [
                | inr (e, failed) ↦ ground arith
                | inl ((u, s), saved) ↦ ground (
                  arith,
                  saved_own p i (record i { quantity = quantity }) w (item_own item_id) refl refl
                      found s saved h,
                )
              ]
      ]

  -- And so does a removal.
  pub delete_item-OthersKeep :
      (item_id : ℕ) (w : World E)
      → OthersKeep w.db
      → OthersKeep (delete_item E user_id item_id w).1.db
  unfolding delete_item
  delete_item-OthersKeep item_id w h =
      let p = owns_item user_id item_id in
      elim (Result-cases (E.cart_items.delete p w.db.cart_items)) [
        | inr (e, failed) ↦ ground arith
        | inl ((u, s), gone) ↦
            (let rows = E.cart_items.delete_ok p w.db.cart_items s gone in
              let kept : others user_id (E.cart_items.rows s) ≡ xs =
                ap (others user_id) rows
                ∙ others-delete user_id p (E.cart_items.rows w.db.cart_items) (item_own item_id)
                ∙ h in
              ground (arith, kept))
      ]

-- Calls of one user on the cart.
pub data CartCall : Type 0 where
  adds : AddCartItemInput → CartCall
  updates : ℕ → ℤ → CartCall
  deletes : ℕ → CartCall

abbrev pub serve_cart : (E : Env) → ℕ → CartCall → World E → World E
serve_cart E user_id (adds input) w = (add_item E user_id input w).1
serve_cart E user_id (updates item_id quantity) w = (update_quantity E user_id item_id quantity w).1
serve_cart E user_id (deletes item_id) w = (delete_item E user_id item_id w).1

-- A call of a user on the cart, whatever its outcome, leaves the items of all other users as they are.
pub serve_cart-others :
    (E : Env) (user_id : ℕ) (c : CartCall) (w : World E)
    → others user_id (E.cart_items.rows (serve_cart E user_id c w).db.cart_items)
      ≡ others user_id (E.cart_items.rows w.db.cart_items)
serve_cart-others E user_id (adds input) w = add_item-OthersKeep E user_id _ input w refl
serve_cart-others E user_id (updates item_id quantity) w =
    update_quantity-OthersKeep E user_id _ item_id quantity w refl
serve_cart-others E user_id (deletes item_id) w = delete_item-OthersKeep E user_id _ item_id w refl
