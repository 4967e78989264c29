-- ===== src/Config/Sound.antt =====
-- What every configuration of internal/config/config.go has, whatever the environment is.
use go_order_lab.Prelude.{◌≢◌, [], IsInt64, Text, arith}
use go_order_lab.Floats.{Floats}
use go_order_lab.Config.{Config, load}
use go_order_lab.Config.Values.{getenv_filled, getenv_int-IsInt64}

module _ {R : Floats} (cfg : Config R) where
  -- The texts with a fallback are not empty.
  pub record IsFilled : Type 0 where
    pub addr : cfg.addr ≢ []
    pub db_driver : cfg.db_driver ≢ []
    pub db_source : cfg.db_source ≢ []
    pub jwt_secret : cfg.jwt_secret ≢ []
    pub admin_username : cfg.admin_username ≢ []
    pub admin_password : cfg.admin_password ≢ []
    pub redis_addr : cfg.redis_addr ≢ []
    pub rabbit_url : cfg.rabbit_url ≢ []
    pub rabbit_queue : cfg.rabbit_queue ≢ []

  pub record IsInRange : Type 0 where
    pub db_max_open_conns : IsInt64 cfg.db_max_open_conns
    pub db_max_idle_conns : IsInt64 cfg.db_max_idle_conns
    pub db_conn_max_lifetime_seconds : IsInt64 cfg.db_conn_max_lifetime_seconds
    pub request_timeout_seconds : IsInt64 cfg.request_timeout_seconds
    pub shutdown_timeout_seconds : IsInt64 cfg.shutdown_timeout_seconds
    pub worker_count : IsInt64 cfg.worker_count
    pub redis_db : IsInt64 cfg.redis_db
    pub rabbit_max_retries : IsInt64 cfg.rabbit_max_retries
    pub compensation_interval_seconds : IsInt64 cfg.compensation_interval_seconds
    pub compensation_queued_timeout_seconds : IsInt64 cfg.compensation_queued_timeout_seconds
    pub compensation_pay_timeout_seconds : IsInt64 cfg.compensation_pay_timeout_seconds
    pub rate_limit_burst : IsInt64 cfg.rate_limit_burst

module _ (R : Floats) where
  -- Every `int` of a configuration has 64 bits, whatever the environment is.
  pub load-IsInRange : (env : Text → Text) → IsInRange (load R env)
  unfolding load
  load-IsInRange env = record {
    db_max_open_conns = getenv_int-IsInt64 env _ _ (omega arith);
    db_max_idle_conns = getenv_int-IsInt64 env _ _ (omega arith);
    db_conn_max_lifetime_seconds = getenv_int-IsInt64 env _ _ (omega arith);
    request_timeout_seconds = getenv_int-IsInt64 env _ _ (omega arith);
    shutdown_timeout_seconds = getenv_int-IsInt64 env _ _ (omega arith);
    worker_count = getenv_int-IsInt64 env _ _ (omega arith);
    redis_db = getenv_int-IsInt64 env _ _ (omega arith);
    rabbit_max_retries = getenv_int-IsInt64 env _ _ (omega arith);
    compensation_interval_seconds = getenv_int-IsInt64 env _ _ (omega arith);
    compensation_queued_timeout_seconds = getenv_int-IsInt64 env _ _ (omega arith);
    compensation_pay_timeout_seconds = getenv_int-IsInt64 env _ _ (omega arith);
    rate_limit_burst = getenv_int-IsInt64 env _ _ (omega arith);
  }

  -- Whatever the environment is, none of these is empty: the server's and Redis's address, the driver and
  -- the source of the database, the secret of the tokens, the administrator's name and password, and
  -- RabbitMQ's URL and queue.
  pub load-IsFilled : (env : Text → Text) → IsFilled (load R env)
  unfolding load
  load-IsFilled env = record {
    addr = getenv_filled env _ _ (cc);
    db_driver = getenv_filled env _ _ (cc);
    db_source = getenv_filled env _ _ (cc);
    jwt_secret = getenv_filled env _ _ (cc);
    admin_username = getenv_filled env _ _ (cc);
    admin_password = getenv_filled env _ _ (cc);
    redis_addr = getenv_filled env _ _ (cc);
    rabbit_url = getenv_filled env _ _ (cc);
    rabbit_queue = getenv_filled env _ _ (cc);
  }
