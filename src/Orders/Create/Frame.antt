-- ===== src/Orders/Create/Frame.antt =====
-- What the first steps of placing an order read and leave alone.
use go_order_lab.Prelude.{ℕ, ◌≡◌, sym, ◌∙◌, false, ok, ℤ, Result-cases, inl, inr, arith, ==_iff}
use go_order_lab.Store.Rows.{has_id, any, count_none, find_first-holds}
use go_order_lab.Model.{Activity, activity_columns}
use go_order_lab.Env.{Env, World}
use go_order_lab.Orders.Create.{
  CreateOrderInput, Reads, placed_by, find_activity, refuse_second_order, reserve_activity,
}

pub find_activity_key :
    (E : Env) (j : ℕ) (w : World E) (a : Activity) → find_activity E j w ≡ ok a → a.id ≡ j
find_activity_key E j w a found = (==_iff a.id j).0 (
    find_first-holds (has_id activity_columns j) (E.activities.rows w.db.activities) a
      (E.activities.first_ok (has_id activity_columns j) w.db.activities a found))

module _ (E : Env) where
  pub allowed :
      (user_id activity_id : ℕ) (w : World E)
      → (refuse_second_order E user_id activity_id w).0 ≡ ok tt
      → any (placed_by user_id activity_id) (E.orders.rows w.db.orders) ≡ false
  unfolding refuse_second_order
  allowed user_id activity_id w h =
      elim (Result-cases (E.orders.count_where (placed_by user_id activity_id) w.db.orders)) [
        | inr (e, failed) ↦ absurd (ground arith)
        | inl (n, counted) ↦
            (let none_of : n ≡ 0 = ground arith in
              let c = E.orders.count_ok (placed_by user_id activity_id) w.db.orders n counted in
              count_none (placed_by user_id activity_id) (E.orders.rows w.db.orders)
                (sym c ∙ none_of))
      ]

  pub reserve_activity_frame :
      (user_id : ℕ) (input : CreateOrderInput) (reads : Reads) (w : World E)
      → (reserve_activity E user_id input reads w).1.db ≡ w.db
  unfolding reserve_activity
  reserve_activity_frame user_id input reads w = ground arith

  pub reserve_activity_ok :
      (user_id : ℕ) (input : CreateOrderInput) (reads : Reads) (w : World E) (a : Activity)
      (left : ℤ)
      → (reserve_activity E user_id input reads w).0 ≡ ok (a, left)
      → (find_activity E input.activity_id w ≡ ok a)
        × ((reserve_activity E user_id input reads w).1.db ≡ w.db)
  unfolding reserve_activity
  reserve_activity_ok user_id input reads w a left done = ground arith
