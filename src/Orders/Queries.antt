-- ===== src/Orders/Queries.antt =====
-- `ListOrders`, `GetOrder` and `ListLogs` of internal/service/order.go. The lists come newest first.
use go_order_lab.Prelude.{
  ℕ, zero, suc, true, List, [], ◌∷◌, reverse, Result, ok, err, order_not_found, Text, ◌==◌,
}
use go_order_lab.Model.{Order, OperationLog}
use go_order_lab.Env.{Env, World}
use go_order_lab.Orders.Cancel.{has_owner}

-- `Limit(n)`
abbrev pub take {ℓ} : {A : Type ℓ} → ℕ → List A → List A
take zero xs = []
take (suc n) [] = []
take (suc n) (x ∷ xs) = x ∷ take n xs

module _ (E : Env) where
  unfoldable pub list_orders : ℕ → World E → Result (List Order)
  list_orders user_id w = elim (E.orders.find (λ o. o.user_id == user_id) w.db.orders) [
    | ok os ↦ ok (reverse os)
    | err e ↦ err e
  ]

  unfoldable pub get_order : ℕ → Text → World E → Result Order
  get_order user_id order_no w = elim (E.orders.first (has_owner user_id order_no) w.db.orders) [
    | ok o ↦ ok o
    | err _ ↦ err order_not_found
  ]

  unfoldable pub list_logs : World E → Result (List OperationLog)
  list_logs w = elim (E.operation_logs.find (λ _. true) w.db.operation_logs) [
    | ok ls ↦ ok (take 100 (reverse ls))
    | err e ↦ err e
  ]
