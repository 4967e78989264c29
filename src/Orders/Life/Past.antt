-- ===== src/Orders/Life/Past.antt =====
-- What a history of the orders' table leaves of each order.
use go_order_lab.Prelude.{
  ℕ, ◌<◌, ◌≤◌, ◌≡◌, ◌≢◌, refl, Bool, true, false, some, List, [], ◌∷◌, ℤ, arith, Bool-cases, inl,
  inr, ◌∙◌, ap, ◌==◌, subst, sym, ==_refl,
}
use go_order_lab.Store.Rows.{
  Base, find_first, update_where, any, count, count-append, upsert, Unique, All-find_first,
}
use go_order_lab.Store.Evolution.{
  Evolves, Evolves-append, Evolves-refl, Evolves-update_where, Evolves-upsert, Evolves-trans,
}
use go_order_lab.Model.{Order, order_columns, OrderStatus, is_open}
use go_order_lab.Orders.Create.{placed_by}
use go_order_lab.Orders.Compensate.{touch_order}
use go_order_lab.Orders.Life.{
  Moves, starts_waiting, is_paid, is_cancelled, is_closed, Reaches, stays, goes, Later, Step,
  advance, touch, place, place_cart, History, start, next,
}

Reaches-trans : (s t u : OrderStatus) → Reaches s t → Reaches t u → Reaches s u
Reaches-trans s t u h stays = h
Reaches-trans s t u h (goes v _ k m) = goes v u (Reaches-trans s t v h k) m

Later-refl : (o : Order) → Later o o
Later-refl o = record {
  base = o.base;
  status = o.status;
  same_id = refl;
  row = refl;
  moves = stays;
}

Later-trans : (a b c : Order) → Later a b → Later b c → Later a c
Later-trans a b c h k = record {
  base = k.base;
  status = k.status;
  same_id = k.same_id ∙ ap (λ o. o.id) h.row ∙ h.same_id;
  row = subst (λ o. c ≡ record o { base = k.base; status = k.status }) h.row k.row;
  moves =
      Reaches-trans a.status h.status k.status h.moves
        (subst (λ o. Reaches o.status k.status) h.row k.moves);
}

Step-Evolves : (xs ys : List Order) → Step xs ys → Evolves Later xs ys
Step-Evolves xs _ (advance _ p o base status u found key m) =
    Evolves-upsert Later Later-refl order_columns p o _ xs u found key (record {
      base = base;
      status = status;
      same_id = key;
      row = refl;
      moves = goes o.status status stays m;
    })
Step-Evolves xs _ (touch _ p now) =
    Evolves-update_where Later Later-refl p (touch_order now) xs (λ o _. record {
      base = record (o.base) { updated_at = now };
      status = o.status;
      same_id = refl;
      row = refl;
      moves = stays;
    })
Step-Evolves xs _ (place _ o _ _) = Evolves-append Later Later-refl xs (o ∷ [])
Step-Evolves xs _ (place_cart _ o _ _) = Evolves-append Later Later-refl xs (o ∷ [])

-- Every order keeps its place and is a later row of itself.
pub History-Evolves : (xs ys : List Order) → History xs ys → Evolves Later xs ys
History-Evolves xs _ start = Evolves-refl Later Later-refl xs
History-Evolves xs zs (next ys _ h s) =
    Evolves-trans Later Later-trans xs ys zs (History-Evolves xs ys h) (Step-Evolves ys zs s)

-- A paid, cancelled or closed order stays what it is.
pub Reaches-final : (s t : OrderStatus) → is_open s ≡ false → Reaches s t → t ≡ s
Reaches-final s _ h stays = refl
Reaches-final s u h (goes t _ k m) =
    absurd (no_move t u (subst (λ x. is_open x ≡ false) (sym (Reaches-final s t h k)) h) m)
  where
    no_move : (t u : OrderStatus) → is_open t ≡ false → Moves t u → ⊥
    no_move _ _ e starts_waiting = cc
    no_move _ _ e is_paid = cc
    no_move t _ e (is_cancelled _ o) = cc
    no_move t _ e (is_closed _ o) = cc

module _ (user_id activity_id : ℕ) where
  abbrev pub orders_of : List Order → ℕ
  orders_of = count (placed_by user_id activity_id)

  same_owner :
      (o : Order) (base : Base) (status : OrderStatus)
      → placed_by user_id activity_id (record o { base = base; status = status })
        ≡ placed_by user_id activity_id o
  same_owner o base status = refl

  orders_of-upsert :
      (p : Order → Bool) (o : Order) (base : Base) (status : OrderStatus) (xs : List Order)
      → Unique order_columns xs
      → find_first p xs ≡ some o
      → base.id ≡ o.id
      → orders_of (upsert order_columns (record o { base = base; status = status }) xs)
        ≡ orders_of xs
  orders_of-upsert p o base status [] u h e = cc
  orders_of-upsert p o base status (x ∷ xs) u h e = elim (Bool-cases (p x)) [
    | inl hit ↦
        (let same : o ≡ x = ground arith in
          let here : (x.id == base.id) ≡ true = rw (e, same) (==_refl x.id) in rw (here, same) refl)
    | inr miss ↦
        (let there : find_first p xs ≡ some o = ground arith in
          let apart : o.id ≢ x.id = All-find_first (λ y. y.id ≢ x.id) p xs o u.0 there in
          let other : (x.id == base.id) ≡ false = ground arith in
          rw (other, orders_of-upsert p o base status xs u.1 there e) refl)
  ]

  orders_of-touch :
      (p : Order → Bool) (now : ℤ) (xs : List Order)
      → orders_of (update_where p (touch_order now) xs) ≡ orders_of xs
  orders_of-touch p now [] = refl
  orders_of-touch p now (x ∷ xs) = elim (Bool-cases (p x)) [
    | inl hit ↦ rw (hit, orders_of-touch p now xs) refl
    | inr miss ↦ rw (miss, orders_of-touch p now xs) refl
  ]

  none_placed :
      (o : Order) (xs : List Order)
      → any (placed_by o.user_id o.activity_id) xs ≡ false
      → placed_by user_id activity_id o ≡ true
      → orders_of xs ≡ 0
  none_placed o [] free mine = refl
  none_placed o (x ∷ xs) free mine = ground (arith, none_placed o xs)

  Step-orders_of :
      (xs ys : List Order) → 0 < activity_id → Step xs ys → orders_of xs ≤ 1 → orders_of ys ≤ 1
  Step-orders_of xs _ pos_id (advance _ p o base status u found key m) h =
      rw (orders_of-upsert p o base status xs u found key) h
  Step-orders_of xs _ pos_id (touch _ p now) h = rw (orders_of-touch p now xs) h
  Step-orders_of xs _ pos_id (place _ o _ free) h =
      rw (count-append (placed_by user_id activity_id) xs (o ∷ []))
        (elim (Bool-cases (placed_by user_id activity_id o)) [
          | inl mine ↦ rw mine (let z = none_placed o xs free mine in omega arith)
          | inr other ↦ rw other (omega arith)
        ])
  Step-orders_of xs _ pos_id (place_cart _ o _ none_of) h =
      rw (count-append (placed_by user_id activity_id) xs (o ∷ [])) (
        let other : placed_by user_id activity_id o ≡ false = ground arith in
        rw other (omega arith))

  -- A user who has one order of an activity at most keeps to that.
  pub History-orders_of :
      (xs ys : List Order) → 0 < activity_id → History xs ys → orders_of xs ≤ 1 → orders_of ys ≤ 1
  History-orders_of xs _ pos_id start h = h
  History-orders_of xs zs pos_id (next ys _ past s) h =
      Step-orders_of ys zs pos_id s (History-orders_of xs ys pos_id past h)
