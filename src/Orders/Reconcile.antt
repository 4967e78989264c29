-- ===== src/Orders/Reconcile.antt =====
-- `ReconcileStock` of internal/service/order.go: the cached stocks are held against the database,
-- and repaired on demand.
pub mod Repair
pub mod Agree
use go_order_lab.Prelude.{
  ℕ, suc, ◌+◌, Bool, true, false, not, ◌&&◌, ◌||◌, Option, none, some, List, [], ◌∷◌, ◌++◌, reverse,
  Result, ok, err, Error, failure, Action, query, pure, raise, ◌>>=◌, ◌>>◌, ℤ, pos, eq_ℤ, Text,
  codes, decimal, ◌==◌, ltb, if◌then◌else◌,
}
use go_order_lab.Model.{Activity, ActivityStatus}
use go_order_lab.Env.{Env, World, log}
use go_order_lab.Orders.Service.{OrderService, print_int, success, failed}

pub record StockReconcileInput : Type 0 where
  pub activity_id : ℕ
  pub repair : Bool

pub record StockReconcileItem : Type 0 where
  pub activity_id : ℕ
  pub activity_name : Text
  pub status : ActivityStatus
  pub mysql_stock : ℤ
  pub redis_stock : ℤ
  pub redis_exists : Bool
  pub repaired : Bool

pub record StockReconcileResult : Type 0 where
  pub checked : ℕ
  pub missing : ℕ
  pub mismatched : ℕ
  pub repaired : ℕ
  pub items : List StockReconcileItem

abbrev pub nothing_checked : StockReconcileResult
nothing_checked = record { checked = 0; missing = 0; mismatched = 0; repaired = 0; items = [] }

abbrev pub is_reconciled : StockReconcileInput → Activity → Bool
is_reconciled input a = if ltb 0 input.activity_id then a.id == input.activity_id else true

abbrev pub item_of : Activity → ℤ → Bool → Bool → StockReconcileItem
item_of a redis_stock exists repaired = record {
  activity_id = a.id;
  activity_name = a.name;
  status = a.status;
  mysql_stock = a.stock;
  redis_stock = redis_stock;
  redis_exists = exists;
  repaired = repaired;
}

abbrev pub add_item : StockReconcileItem → StockReconcileResult → StockReconcileResult
add_item i r = record r { items = r.items ++ i ∷ [] }

module _ (E : Env) where
  -- `s.redisStock.SetStock`; `now` is what the time to live is counted from.
  unfoldable pub set_stock : ℤ → Activity → Action (World E) (Unit {0})
  set_stock now a w =
      let (r, s) = E.cache.set_stock now a.id a.stock a.end_at w.cache in
      (r, record w { cache = s })

  abbrev stock_message : Activity → Text
  stock_message a = codes "activity=" ++ decimal a.id ++ codes " mysql_stock=" ++ print_int a.stock

  abbrev both_message : Activity → ℤ → Text
  both_message a redis_stock =
      codes "activity="
      ++ decimal a.id
      ++ codes " redis_stock="
      ++ print_int redis_stock
      ++ codes " mysql_stock="
      ++ print_int a.stock

  -- The branch of a missing or wrong entry: repaired if asked for, and noted.
  unfoldable pub settle_item :
      StockReconcileInput
      → ℤ
      → Activity
      → ℤ
      → Bool
      → Text
      → Text
      → Text
      → StockReconcileResult
      → Action (World E) StockReconcileResult
  unfolding set_stock log print_int
  settle_item input now a redis_stock exists repair_message note note_message r w =
      if input.repair
      then elim (set_stock now a w).0 [
        | err e ↦ (err e, (set_stock now a w).1)
        | ok _ ↦ (
          ok (
              add_item (item_of a redis_stock exists true)
                (record r { repaired = suc r.repaired })),
          log E (codes "stock_reconcile_repair") [] 0 success repair_message (set_stock now a w).1,
        )
      ]
      else (
        ok (add_item (item_of a redis_stock exists false) r),
        log E note [] 0 failed note_message w,
      )

  -- The rest of the round, when the cache has answered.
  unfoldable pub compare_item :
      StockReconcileInput
      → ℤ
      → Activity
      → ℤ
      → Bool
      → StockReconcileResult
      → Action (World E) StockReconcileResult
  unfolding settle_item
  compare_item input now a redis_stock exists r =
      if not exists
      then settle_item input now a redis_stock exists
          (codes "activity="
            ++ decimal a.id
            ++ codes " missing redis stock repaired to mysql_stock="
            ++ print_int a.stock)
          (codes "stock_reconcile_missing") (stock_message a) (record r { missing = suc r.missing })
      else if eq_ℤ redis_stock a.stock
      then pure r
      else settle_item input now a redis_stock exists (both_message a redis_stock)
          (codes "stock_reconcile_mismatch") (both_message a redis_stock)
          (record r { mismatched = suc r.mismatched })

  unfoldable pub reconcile_one :
      StockReconcileInput
      → ℤ
      → Activity
      → StockReconcileResult
      → Action (World E) StockReconcileResult
  unfolding compare_item
  reconcile_one input now a r w = elim (E.cache.get_stock a.id w.cache) [
    | err e ↦ (err e, w)
    | ok (redis_stock, exists) ↦
        compare_item input now a redis_stock exists (record r { checked = suc r.checked }) w
  ]

  unfoldable pub reconcile_loop :
      StockReconcileInput
      → ℤ
      → List Activity
      → StockReconcileResult
      → Action (World E) StockReconcileResult
  unfolding reconcile_one
  reconcile_loop input now [] r = pure r
  reconcile_loop input now (a ∷ rest) r =
      reconcile_one input now a r >>= reconcile_loop input now rest

  unfoldable pub reconcile_stock :
      OrderService → StockReconcileInput → ℤ → Action (World E) StockReconcileResult
  unfolding reconcile_loop
  reconcile_stock S input now w =
      if S.redis_stock
      then elim (E.activities.find (is_reconciled input) w.db.activities) [
        | err e ↦ (err e, w)
        | ok found ↦ reconcile_loop input now (reverse found) nothing_checked w
      ]
      else (err (failure (codes "redis stock store is not enabled")), w)
