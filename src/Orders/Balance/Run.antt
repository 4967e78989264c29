-- ===== src/Orders/Balance/Run.antt =====
-- Any history of requests, workers' rounds and compensations keeps the account of every activity,
-- so no activity sells more than its supply.
use go_order_lab.Prelude.{ℕ, ◌<◌, List, ℤ, IsInt64}
use go_order_lab.Env.{Env, World}
use go_order_lab.Orders.Service.{OrderService}
use go_order_lab.Orders.Run.{Request, run}
use go_order_lab.Orders.Keeps.{Keeps}
use go_order_lab.Orders.Keeps.Run.{run-keeps}
use go_order_lab.Orders.Balance.{Balanced}
use go_order_lab.Orders.Balance.Place.{placed-Balanced, taken-Balanced, create_cart_order-Balanced}
use go_order_lab.Orders.Balance.Settle.{
  settle-Balanced, hold-Balanced, touched-Balanced, ended_activity-Balanced,
}

module _ (E : Env) (S : OrderService) (k : ℕ) (supply : ℤ) (k_pos : 0 < k)
    (fits : IsInt64 supply) where
  Balanced-Keeps : Keeps E S (Balanced E k supply)
  Balanced-Keeps = record {
    quiet = λ d s b. record { in_stock = b.in_stock; accounted = b.accounted };
    products_aside = λ d s b. record { in_stock = b.in_stock; accounted = b.accounted };
    user_coupons_aside = λ d s b. record { in_stock = b.in_stock; accounted = b.accounted };
    order_items_aside = λ d s b. record { in_stock = b.in_stock; accounted = b.accounted };
    cart_items_aside = λ d s b. record { in_stock = b.in_stock; accounted = b.accounted };
    payments_aside = λ d s b. record { in_stock = b.in_stock; accounted = b.accounted };
    placed = λ d a order stored s t key status left found saved made free.
        placed-Balanced E k supply fits d a order stored s t key status left found saved made;
    reserved = λ d j now n order stored s t key status touched some_row made free.
        taken-Balanced E k supply fits d j now n order stored s t key status touched some_row made;
    cart =
        λ order w no_activity wait. create_cart_order-Balanced E k supply k_pos order w no_activity;
    settle = λ p order st w s' opened settled move.
        settle-Balanced E k supply k_pos fits S p order st w s' opened settled;
    hold = λ p order st d s' held holds move. hold-Balanced E k supply p order st d s' held holds;
    touched = touched-Balanced E k supply;
    ended_activity = ended_activity-Balanced E k supply;
  }

  -- Where the stock of an activity and the orders that hold a unit of it make up a supply that fits
  -- in 64 bits, and the stock is not negative, both still hold after any history of requests, whichever
  -- calls on tables, cache and broker fail in it.
  pub run-Balanced :
      (rs : List Request) (w : World E)
      → Balanced E k supply w.db
      → Balanced E k supply (run E S rs w).db
  run-Balanced = run-keeps E S (Balanced E k supply) Balanced-Keeps
