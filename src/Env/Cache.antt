-- ===== src/Env/Cache.antt =====
-- The interface `stockCache` of internal/service/order.go, with the laws that the order service and
-- the reconciliation rely on. `RedisStockStore` is its implementation.
use go_order_lab.Prelude.{
  ℕ, ◌≡◌, Bool, true, false, Option, none, some, Result, ok, ℤ, pos, ◌+ℤ◌, ◌==◌, if◌then◌else◌,
}
use go_order_lab.Model.{Activity}

-- Instants and deadlines are in nanoseconds; `now` is what `time.Until` reads.
pub record StockCache : Type 1 where
  pub State : Type 0
  -- The cached stock of an activity, and whether a user holds a reservation of it.
  pub stock : State → ℕ → Option ℤ
  pub holds : State → ℕ → ℕ → Bool
  pub reserve : ℤ → Activity → ℕ → State → Result ℤ × State
  pub release : ℕ → ℕ → State → Result (Unit {0}) × State
  pub prewarm : ℤ → Activity → State → Result (Unit {0}) × State
  pub set_stock : ℤ → ℕ → ℤ → ℤ → State → Result (Unit {0}) × State
  pub get_stock : ℕ → State → Result (ℤ × Bool)
  pub get_stock_ok :
      (a : ℕ) (s : State) (v : ℤ) (exists : Bool)
      → get_stock a s ≡ ok (v, exists)
      → stock s a ≡ (if exists then some v else none)
  pub set_stock_ok :
      (now : ℤ) (a : ℕ) (v end_at : ℤ) (s s' : State)
      → set_stock now a v end_at s ≡ (ok tt, s')
      → (b : ℕ) → stock s' b ≡ (if a == b then some v else stock s b)
  -- A reservation is new, and takes one unit of a positive stock.
  pub reserve_ok :
      (now : ℤ) (act : Activity) (u : ℕ) (s : State) (left : ℤ) (s' : State)
      → reserve now act u s ≡ (ok left, s')
      → (holds s act.id u ≡ false)
        × (stock s' act.id ≡ some left)
        × ((v : ℕ) → holds s' act.id v ≡ (if v == u then true else holds s act.id v))
  -- A release gives the unit of a holder back, and does nothing for anyone else.
  pub release_ok :
      (a u : ℕ) (s s' : State)
      → release a u s ≡ (ok tt, s')
      → ((v : ℕ) → holds s' a v ≡ (if v == u then false else holds s a v))
        × (stock s' a ≡ (
            if holds s a u
            then (elim (stock s a) [ none ↦ some (pos 1) | some v ↦ some (v +ℤ pos 1) ])
            else stock s a))
  pub prewarm_ok :
      (now : ℤ) (act : Activity) (s s' : State)
      → prewarm now act s ≡ (ok tt, s')
      → (b : ℕ) → stock s' b ≡ (if act.id == b then some act.stock else stock s b)
