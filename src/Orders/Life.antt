-- ===== src/Orders/Life.antt =====
-- The life of an order: the specification of its status that the operations of
-- internal/service/order.go implement, and of the rows of the orders' table.
pub mod Past
pub mod Run
use go_order_lab.Prelude.{
  ℕ, ◌≡◌, refl, Bool, true, false, ◌⊎◌, Option, some, List, [], ◌∷◌, ◌++◌, ℤ,
}
use go_order_lab.Store.Rows.{Base, find_first, update_where, any, upsert, Unique}
use go_order_lab.Model.{
  Order, order_columns, OrderStatus, queued, wait_pay, paid, cancelled, closed, is_open,
}
use go_order_lab.Orders.Create.{placed_by}
use go_order_lab.Orders.Compensate.{touch_order}

-- An order that holds the unit it took.
abbrev pub is_live : OrderStatus → Bool
is_live queued = true
is_live wait_pay = true
is_live paid = true
is_live _ = false

-- The moves that the service makes.
pub data Moves : OrderStatus → OrderStatus → Type 0 where
  starts_waiting : Moves queued wait_pay
  is_paid : Moves wait_pay paid
  is_cancelled : (s : OrderStatus) → is_open s ≡ true → Moves s cancelled
  is_closed : (s : OrderStatus) → is_open s ≡ true → Moves s closed

-- What becomes of a status by any number of moves.
pub data Reaches (s : OrderStatus) : OrderStatus → Type 0 where
  stays : Reaches s s
  goes : (t u : OrderStatus) → Reaches s t → Moves t u → Reaches s u

-- A later row of the same order: all but the managed columns and the status is the same.
pub record Later (o o' : Order) : Type 0 where
  pub base : Base
  pub status : OrderStatus
  pub same_id : base.id ≡ o.id
  pub row : o' ≡ record o { base = base; status = status }
  pub moves : Reaches o.status status

-- One write to the table of the orders.
pub data Step : List Order → List Order → Type 0 where
  advance :
      (xs : List Order) (p : Order → Bool) (o : Order) (base : Base) (status : OrderStatus)
      → Unique order_columns xs
      → find_first p xs ≡ some o
      → base.id ≡ o.id
      → Moves o.status status
      → Step xs (upsert order_columns (record o { base = base; status = status }) xs)
  touch :
      (xs : List Order) (p : Order → Bool) (now : ℤ) → Step xs (update_where p (touch_order now) xs)
  place :
      (xs : List Order) (o : Order)
      → o.status ≡ queued
      → any (placed_by o.user_id o.activity_id) xs ≡ false
      → Step xs (xs ++ o ∷ [])
  place_cart :
      (xs : List Order) (o : Order)
      → o.status ≡ wait_pay
      → o.activity_id ≡ 0
      → Step xs (xs ++ o ∷ [])

-- Any number of them.
pub data History (xs : List Order) : List Order → Type 0 where
  start : History xs xs
  next : (ys zs : List Order) → History xs ys → Step ys zs → History xs zs
