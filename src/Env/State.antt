-- ===== src/Env/State.antt =====
-- The state that the services share, and `gorm.DB.Transaction`.
use go_order_lab.Prelude.{Option, none, some, List, Result, ok, err, Error, Action, Text}
use go_order_lab.Store.Table.{Table}
use go_order_lab.Model.{
  user_columns, product_columns, address_columns, cart_item_columns, coupon_columns,
  user_coupon_columns, activity_columns, order_columns, order_item_columns, payment_columns,
  operation_log_columns,
}
use go_order_lab.Env.Cache.{StockCache}
use go_order_lab.Env.Broker.{Broker}

pub record Env : Type 1 where
  pub users : Table user_columns
  pub products : Table product_columns
  pub addresses : Table address_columns
  pub cart_items : Table cart_item_columns
  pub coupons : Table coupon_columns
  pub user_coupons : Table user_coupon_columns
  pub activities : Table activity_columns
  pub orders : Table order_columns
  pub order_items : Table order_item_columns
  pub payments : Table payment_columns
  pub operation_logs : Table operation_log_columns
  -- The connection, and how BEGIN and COMMIT fail.
  pub Session : Type 0
  pub begin : Session → Option Error
  pub commit : Session → Option Error
  pub cache : StockCache
  pub broker : Broker

pub record Db (E : Env) : Type 0 where
  pub users : E.users.State
  pub products : E.products.State
  pub addresses : E.addresses.State
  pub cart_items : E.cart_items.State
  pub coupons : E.coupons.State
  pub user_coupons : E.user_coupons.State
  pub activities : E.activities.State
  pub orders : E.orders.State
  pub order_items : E.order_items.State
  pub payments : E.payments.State
  pub operation_logs : E.operation_logs.State
  pub session : E.Session

-- `tasks` is the channel of `OrderService`, oldest first.
pub record World (E : Env) : Type 0 where
  pub db : Db E
  pub cache : E.cache.State
  pub broker : E.broker.State
  pub tasks : List Text

module _ (E : Env) where
  -- A rollback takes back what was written to the tables, and nothing else. With their states goes what
  -- an environment hides in them: in one environment a call that failed in a transaction fails again
  -- when the transaction is repeated on the same state.
  abbrev pub rollback : World E → World E → World E
  rollback w w' = record w' { db = w.db }

  abbrev pub close : {A : Type 0} → World E → Result A × World E → Result A × World E
  close w (ok a, w') = elim (E.commit w'.db.session) [
    | none ↦ (ok a, w')
    | some e ↦ (err e, rollback w w')
  ]
  close w (err e, w') = (err e, rollback w w')

  abbrev pub transaction : {A : Type 0} → Action (World E) A → Action (World E) A
  transaction m w = elim (E.begin w.db.session) [ none ↦ close w (m w) | some e ↦ (err e, w) ]
