-- ===== src/Orders/Effect.antt =====
-- What the operations of internal/service/order.go have done when they report no error.
pub mod Charged
pub mod Redeemed
pub mod Cancel
pub mod Pay
pub mod Placed
pub mod Create
pub mod CartRows
pub mod Checkout
pub mod Sold
pub mod Selling
pub mod CheckoutStock
use go_order_lab.Prelude.{
  ◌≡◌, ◌≢◌, refl, sym, ap, Bool, true, false, Option, some, List, [], ◌∷◌, ok, arith, ◌==◌, ==_refl,
  if◌then◌else◌, Bool-cases, inl, inr, subst,
}
use go_order_lab.Store.Rows.{
  find_first, find_first-holds, upsert, Unique, All, All-find_first, stamp,
}
use go_order_lab.Model.{Order, order_columns, OrderStatus}
use go_order_lab.Env.{Env}

-- The row that a Save has written is the one that its condition finds.
find_first-upsert :
    (p : Order → Bool) (o o' : Order) (xs : List Order)
    → Unique order_columns xs
    → find_first p xs ≡ some o
    → o'.id ≡ o.id
    → p o' ≡ true
    → find_first p (upsert order_columns o' xs) ≡ some o'
find_first-upsert p o o' [] u h e k = cc
find_first-upsert p o o' (x ∷ xs) u h e k = elim (Bool-cases (p x)) [
  | inl hit ↦
      (let same : o ≡ x = ground arith in
        let here : (x.id == o'.id) ≡ true = rw (e, same) (==_refl x.id) in rw (here, k) refl)
  | inr miss ↦
      (let there : find_first p xs ≡ some o = ground arith in
        let apart : o.id ≢ x.id = All-find_first (λ y. y.id ≢ x.id) p xs o u.0 there in
        let other : (x.id == o'.id) ≡ false = ground arith in
        rw (other, miss) (find_first-upsert p o o' xs u.1 there e k))
]

-- The order that `p` found first was in a status of `from`, has moved to `status`, and is still the
-- first that `p` finds.
pub record Moved (p : Order → Bool) (from : OrderStatus → Bool) (status : OrderStatus)
    (xs ys : List Order) : Type 0 where
  pub before : Order
  pub found : find_first p xs ≡ some before
  pub was : from before.status ≡ true
  pub after : Order
  pub found_after : find_first p ys ≡ some after
  pub moved : after.status ≡ status
  pub same_order : after.order_no ≡ before.order_no

pub save-Moved :
    (E : Env) (p : Order → Bool) (from : OrderStatus → Bool) (o : Order) (st : OrderStatus)
    (s s' : E.orders.State)
    → ((t : E.orders.State)
        → p (stamp order_columns (E.orders.clock t) (record o { status = st })) ≡ p o)
    → from o.status ≡ true
    → E.orders.first p s ≡ ok o
    → E.orders.save (record o { status = st }) s ≡ ok (tt, s')
    → Moved p from st (E.orders.rows s) (E.orders.rows s')
save-Moved E p from o st s s' blind was found saved =
    let o' = stamp order_columns (E.orders.clock s) (record o { status = st }) in
    let before = E.orders.first_ok p s o found in
    record {
      before = o;
      found = before;
      was = was;
      after = o';
      found_after = rw (E.orders.save_ok _ s s' saved) (
          find_first-upsert p o o' (E.orders.rows s) (E.orders.unique s) before refl
            (rw (blind s) (find_first-holds p (E.orders.rows s) o before)));
      moved = refl;
      same_order = refl;
    }
