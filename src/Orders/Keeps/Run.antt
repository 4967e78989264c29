-- ===== src/Orders/Keeps/Run.antt =====
-- What every transaction keeps, every history of requests keeps.
use go_order_lab.Prelude.{List, [], ◌∷◌}
use go_order_lab.Env.{Env, Db, World}
use go_order_lab.Orders.Service.{OrderService}
use go_order_lab.Orders.Run.{
  Request, creates, checks_out, cancels, expires, pays, works, delivers, compensates, sweeps, serve,
  run,
}
use go_order_lab.Orders.Keeps.{Keeps}
use go_order_lab.Orders.Keeps.Place.{create_order_context-keeps}
use go_order_lab.Orders.Keeps.Settle.{cancel_order-keeps, expire_orders-keeps}
use go_order_lab.Orders.Keeps.Pay.{payment_callback-keeps}
use go_order_lab.Orders.Keeps.Work.{worker_round-keeps, deliver-keeps}
use go_order_lab.Orders.Keeps.Sweep.{compensate-keeps}
use go_order_lab.Orders.Keeps.Rounds.{compensation_round-keeps}
use go_order_lab.Orders.Keeps.Cart.{checkout_cart-keeps}

module _ (E : Env) (S : OrderService) (J : Db E → Type 0) (K : Keeps E S J) where
  pub serve-keeps : (r : Request) (w : World E) → J w.db → J (serve E S r w).db
  unfolding serve
  serve-keeps (creates user_id input reads) w =
      create_order_context-keeps E S J K user_id input reads w
  serve-keeps (checks_out user_id input reads) w = checkout_cart-keeps E S J K user_id input reads w
  serve-keeps (cancels user_id order_no) w = cancel_order-keeps E S J K user_id order_no w
  serve-keeps (expires timeout now) w = expire_orders-keeps E S J K timeout now w
  serve-keeps (pays input) w = payment_callback-keeps E S J K input w
  serve-keeps (works context_error worker_id) w =
      worker_round-keeps E S J K context_error worker_id w
  serve-keeps (delivers queue now context_error worker_id body) w =
      deliver-keeps E S J K queue now context_error worker_id body w
  serve-keeps (compensates input now) w = compensate-keeps E S J K input now w
  serve-keeps (sweeps cfg now) w = compensation_round-keeps E S J K cfg now w

  pub run-keeps : (rs : List Request) (w : World E) → J w.db → J (run E S rs w).db
  unfolding run
  run-keeps [] w b = b
  run-keeps (r ∷ rs) w b = run-keeps rs (serve E S r w) (serve-keeps r w b)
