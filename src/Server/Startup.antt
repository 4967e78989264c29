-- ===== src/Server/Startup.antt =====
-- What cmd/server/main.go builds from the configuration, and what it does before it listens.
use go_order_lab.Prelude.{
  not, Option, none, some, [], ok, Error, Action, pure, ◌>>◌, ℤ, Text, text_eq, if◌then◌else◌,
}
use go_order_lab.Floats.{Floats}
use go_order_lab.Env.{Env, World}
use go_order_lab.Config.{Config}
use go_order_lab.Users.Tokens.{Jwt}
use go_order_lab.Users.{AuthService, ensure_admin}
use go_order_lab.Orders.Service.{OrderService, seconds}
use go_order_lab.Orders.Start.{
  CompensationWorkerConfig, Workers, new_order_service, set_rabbit_max_retries,
  start_workers_context, start_compensation_worker_context,
}
use go_order_lab.Http.RateLimit.{TokenBucketLimiter, new_token_bucket_limiter}
use go_order_lab.Server.Routes.{Services}

-- What the start of the server leaves running in the background.
pub record Background : Type 0 where
  pub workers : Workers
  pub compensation : Option CompensationWorkerConfig

module _ (R : Floats) (sha256 : Text → Text) (cfg : Config R) where
  abbrev pub auth_service_of : AuthService
  auth_service_of = record { jwt_secret = cfg.jwt_secret; sha256 = sha256 }

  abbrev pub order_service_of : OrderService
  order_service_of = set_rabbit_max_retries cfg.rabbit_max_retries (
      new_order_service cfg.redis_enabled
        (if cfg.rabbit_enabled then some cfg.rabbit_queue else none))

  abbrev pub compensation_config_of : CompensationWorkerConfig
  compensation_config_of = record {
    enabled = cfg.compensation_enabled;
    interval_seconds = cfg.compensation_interval_seconds;
    queued_timeout_seconds = cfg.compensation_queued_timeout_seconds;
    pay_timeout_seconds = cfg.compensation_pay_timeout_seconds;
  }

  unfoldable pub services_of : Services
  unfolding seconds
  services_of = record {
    auth = auth_service_of;
    orders = order_service_of;
    rate_limit_enabled = cfg.rate_limit_enabled;
    request_timeout = seconds cfg.request_timeout_seconds;
  }

  unfoldable pub limiter_of : ℤ → TokenBucketLimiter R
  limiter_of now =
      new_token_bucket_limiter R (record { rps = cfg.rate_limit_rps; burst = cfg.rate_limit_burst })
        now

  module _ (J : Jwt) (E : Env) where
    -- The account of the administrator, where a name is configured; its error ends the program.
    unfoldable pub ready_admin : Action (World E) (Unit {0})
    unfolding ensure_admin
    ready_admin =
        if not (text_eq cfg.admin_username [])
        then ensure_admin J E auth_service_of cfg.admin_username cfg.admin_password >> pure tt
        else pure tt

    unfoldable pub start : Option Error → Action (World E) Background
    unfolding ready_admin start_workers_context start_compensation_worker_context
    start consume_error = ready_admin >> λ w.
        let (workers, v) =
          start_workers_context E order_service_of consume_error cfg.worker_count w in
        let (compensation, u) = start_compensation_worker_context E compensation_config_of v in
        (ok (record { workers = workers; compensation = compensation }), u)
