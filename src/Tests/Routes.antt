-- ===== src/Tests/Routes.antt =====
-- The theorems on the routes at a concrete shop.
use go_order_lab.Prelude.{◌⊎◌, refl, true, false, none, [], ◌++◌, ok, pos, Text, codes}
use go_order_lab.Model.{wait_pay}
use go_order_lab.Users.Tokens.{Claims}
use go_order_lab.Metrics.{new_store}
use go_order_lab.Http.{Context}
use go_order_lab.Http.Auth.{bearer}
use go_order_lab.Http.Answers.{Payload, App}
use go_order_lab.Http.RateLimit.{TokenBucketLimiter}
use go_order_lab.Handlers.Placed.{Declined}
use go_order_lab.Server.Routes.{Services, create_order, overview}
use go_order_lab.Server.Chains.{admin_only, signed_in, Passage, serve}
use go_order_lab.Server.Guards.{Refused, Admitted, serve-guarded, register-serve}
use go_order_lab.Server.Placing.{Placed, serve-create_order}
use go_order_lab.Tests.Shop.{shop, open_shop, without_redis}
use go_order_lab.Tests.Stock.{reads, wanted}
use go_order_lab.Tests.Numbers.{numbers}
use go_order_lab.Tests.Accounts.{clear_tokens, auth_service, morning, ann, ann_token, ann_registers}

abbrev services : Services
services = record {
  auth = auth_service;
  orders = without_redis;
  rate_limit_enabled = true;
  request_timeout = pos 5_000_000_000;
}

abbrev passage : Passage
passage = record {
  token_now = pos 1000;
  limit_now = pos 1000;
  trace_now = pos 999;
  random = none;
  expired = false;
  elapsed = pos 2_000_000;
}

abbrev full_bucket : TokenBucketLimiter numbers
full_bucket = record { rps = 1000; burst = 2000; tokens = 2000; last_fill = pos 0 }

abbrev app : App shop numbers
app = record { world = open_shop wait_pay; metrics = new_store numbers; limiter = full_bucket }

abbrev asks : Text → Context Payload
asks authorization = record {
  method = codes "GET";
  full_path = [];
  url_path = codes "/api";
  authorization = authorization;
  trace_header = [];
  user_id = none;
  user_role = none;
  trace_id = none;
  trace_reply = none;
  response = none;
  aborted = false;
}

-- Without a token.
serve-guarded_example :
    Refused app
      (serve shop numbers clear_tokens services passage (admin_only overview) (asks [], app))
    ⊎ ((claims : Claims) × Admitted shop numbers clear_tokens services passage
          (admin_only overview)
          (asks [])
          claims)
serve-guarded_example =
    serve-guarded shop numbers clear_tokens services passage (admin_only overview) (asks []) app
      refl refl

register-serve_example : Refused app (
    serve shop numbers clear_tokens services passage
      (admin_only overview)
      (asks (bearer ++ ann_token), app))
register-serve_example =
    register-serve shop numbers clear_tokens services passage (codes "ann") (codes "secret") morning
      (open_shop wait_pay) ann ann_token overview (asks (bearer ++ ann_token)) app ann_registers
      refl refl

serve-create_order_example :
    Placed shop numbers clear_tokens services passage
      (ok wanted)
      (reads (codes "AO1"))
      (asks (bearer ++ ann_token))
      app.world
      (serve shop numbers clear_tokens services passage
        (signed_in (create_order (ok wanted) (reads (codes "AO1"))))
        (asks (bearer ++ ann_token), app))
    ⊎ Declined app.world (
        serve shop numbers clear_tokens services passage
          (signed_in (create_order (ok wanted) (reads (codes "AO1"))))
          (asks (bearer ++ ann_token), app))
serve-create_order_example =
    serve-create_order shop numbers clear_tokens services passage (ok wanted) (reads (codes "AO1"))
      (asks (bearer ++ ann_token)) app refl
