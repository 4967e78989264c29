-- ===== src/Orders/Reconcile/Agree.antt =====
-- A reconciliation with repair makes the cache agree with the database.
use go_order_lab.Prelude.{
  ℕ, ◌≡◌, ◌≢◌, refl, sym, subst, ap, ◌∙◌, true, false, ok, some, List, [], ◌∷◌, reverse,
  Result-cases, Bool-cases, inl, inr, arith, if◌then◌else◌, ℤ, pos, ◌==◌, ==_refl,
}
use mathlib.Core.List.{reverse-cons, reverse-reverse}
use go_order_lab.Store.Rows.{All, All-append, select, All-select, Unique}
use go_order_lab.Model.{Activity, activity_columns}
use go_order_lab.Env.{Env, World}
use go_order_lab.Orders.Service.{OrderService}
use go_order_lab.Orders.Reconcile.{
  StockReconcileInput, StockReconcileResult, reconcile_loop, reconcile_stock, is_reconciled,
  nothing_checked,
}
use go_order_lab.Orders.Reconcile.Repair.{cached, loop_settles}

module _ {R : Type 0} (P : R → Type 0) where
  All-reverse : (xs : List R) → All P xs → All P (reverse xs)
  All-reverse [] h = tt
  All-reverse (x ∷ xs) h =
      rw (reverse-cons x xs) (All-append P (reverse xs) (x ∷ []) (All-reverse xs h.1) (h.0, tt))

  All-unreverse : (xs : List R) → All P (reverse xs) → All P xs
  All-unreverse xs h = subst (All P) (reverse-reverse xs) (All-reverse (reverse xs) h)

module _ {R : Type 0} (P Q U : R → Type 0) (both : (x : R) → P x → Q x → U x) where
  All-map : (xs : List R) → All P xs → All Q xs → All U xs
  All-map [] h k = tt
  All-map (x ∷ xs) h k = (both x h.0 k.0, All-map xs h.1 k.1)

-- The stock of the activity with a given key.
abbrev stock_at : List Activity → ℕ → ℤ
stock_at [] k = pos 0
stock_at (x ∷ xs) k = if x.id == k then x.stock else stock_at xs k

stock_at_own :
    (xs : List Activity) → Unique activity_columns xs → All (λ a. a.stock ≡ stock_at xs a.id) xs
stock_at_own [] u = tt
stock_at_own (x ∷ xs) u = (
  rw (==_refl x.id) refl,
  All-map (λ y. y.id ≢ x.id) (λ y. y.stock ≡ stock_at xs y.id)
      (λ y. y.stock ≡ stock_at (x ∷ xs) y.id)
      (λ y apart own. let other : (x.id == y.id) ≡ false = ground arith in rw other own) xs u.0
      (stock_at_own xs u.1),
)

module _ (E : Env) (S : OrderService) (input : StockReconcileInput) (now : ℤ) where
  -- After a reconciliation with repair that reports no error, the cached stock of every activity it
  -- is about is the stock in the database.
  pub reconcile_stock-agrees :
      (w : World E) (r : StockReconcileResult)
      → input.repair ≡ true
      → (reconcile_stock E S input now w).0 ≡ ok r
      → All
          (λ a. cached E (reconcile_stock E S input now w).1 a.id ≡ some a.stock)
          (select (is_reconciled input) (E.activities.rows w.db.activities))
  unfolding reconcile_stock
  reconcile_stock-agrees w r repair h = elim (Bool-cases S.redis_stock) [
    | inr off ↦ absurd (ground arith)
    | inl on ↦ elim (Result-cases (E.activities.find (is_reconciled input) w.db.activities)) [
      | inr (x, e) ↦ absurd (ground arith)
      | inl (found, e) ↦
          (let rows = E.activities.rows w.db.activities in
            let own = stock_at_own rows (E.activities.unique w.db.activities) in
            let f = stock_at rows in
            let listed : found ≡ select (is_reconciled input) rows =
              E.activities.find_ok (is_reconciled input) w.db.activities found e in
            let chosen : All (λ a. a.stock ≡ f a.id) found =
              rw listed (All-select (λ a. a.stock ≡ f a.id) (is_reconciled input) rows own) in
            let last : (reconcile_stock E S input now w).1
                ≡ (reconcile_loop E input now (reverse found) nothing_checked w).1 =
              rw (reconcile_stock, on, e) refl in
            let settled =
              loop_settles E f input now repair (reverse found) nothing_checked r w
                (All-reverse (λ a. a.stock ≡ f a.id) found chosen)
                (rw (reconcile_stock, on, e) at h) in
            subst
              (λ v. All (λ a. cached E v a.id ≡ some a.stock) (select (is_reconciled input) rows))
              (sym last)
              (subst
                (All (λ a.
                  cached E (reconcile_loop E input now (reverse found) nothing_checked w).1 a.id
                  ≡ some a.stock))
                listed
                (All-map (λ a. a.stock ≡ f a.id) _ _ (λ a own_stock c. c ∙ ap some (sym own_stock))
                  found chosen
                  (All-unreverse
                    (λ a.
                      cached E (reconcile_loop E input now (reverse found) nothing_checked w).1 a.id
                      ≡ some (f a.id))
                    found settled))))
    ]
  ]
