-- ===== src/Orders/Keeps/Rounds.antt =====
-- The round of the compensation worker of internal/service/order.go keeps what the compensation keeps.
use go_order_lab.Prelude.{ok, err, ℤ, Result}
use go_order_lab.Env.{Env, Db, World}
use go_order_lab.Env.Laws.{log-keeps}
use go_order_lab.Orders.Service.{OrderService}
use go_order_lab.Orders.Compensate.{CompensationResult, compensate}
use go_order_lab.Orders.Start.{
  CompensationWorkerConfig, compensate_input, log_compensation, compensation_round,
}
use go_order_lab.Orders.Keeps.{Keeps}
use go_order_lab.Orders.Keeps.Sweep.{compensate-keeps}

module _ (E : Env) (S : OrderService) (J : Db E → Type 0) (K : Keeps E S J) where
  log_compensation-keeps :
      (r : Result CompensationResult) (w : World E) → J w.db → J (log_compensation E r w).db
  log_compensation-keeps (ok r) w h = log-keeps E J K.quiet _ _ _ _ _ w h
  log_compensation-keeps (err e) w h = log-keeps E J K.quiet _ _ _ _ _ w h

  pub compensation_round-keeps :
      (cfg : CompensationWorkerConfig) (now : ℤ) (w : World E)
      → J w.db
      → J (compensation_round E S cfg now w).db
  unfolding compensation_round
  compensation_round-keeps cfg now w h =
      let m = compensate E S (compensate_input cfg) now w in
      log_compensation-keeps m.0 m.1 (compensate-keeps E S J K (compensate_input cfg) now w h)
