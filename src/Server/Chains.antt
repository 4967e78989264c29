-- ===== src/Server/Chains.antt =====
-- The middleware around the routes of cmd/server/main.go.
use go_order_lab.Prelude.{Bool, Option, [], ◌∷◌, ℤ, Text, codes, if◌then◌else◌}
use go_order_lab.Floats.{Floats}
use go_order_lab.Model.{admin}
use go_order_lab.Env.{Env}
use go_order_lab.Users.Tokens.{Jwt}
use go_order_lab.Http.{Handler}
use go_order_lab.Http.Auth as Auth
use go_order_lab.Http.Auth.{require_role}
use go_order_lab.Http.RateLimit.{rate_limit}
use go_order_lab.Http.Middleware.{trace_id, metrics, request_timeout}
use go_order_lab.Http.Answers.{Payload, App, Requests, count_event}
use go_order_lab.Server.Routes.{
  Services, OpenCall, UserCall, AdminCall, create_order, handle_open, handle_user, handle_admin,
}

pub data Route : Type 0 where
  open_to_all : OpenCall → Route
  signed_in : UserCall → Route
  admin_only : AdminCall → Route

-- What the middleware reads while a request passes: the clock at the parse of the token and at the
-- limiter, the trace identifier's sources, whether the deadline passed, and the time it took.
pub record Passage : Type 0 where
  pub token_now : ℤ
  pub limit_now : ℤ
  pub trace_now : ℤ
  pub random : Option Text
  pub expired : Bool
  pub elapsed : ℤ

module _ (E : Env) (R : Floats) where
  abbrev pub blocked : App E R → App E R
  blocked = count_event E R (codes "rate_limit") (codes "blocked")

  abbrev pub limited : ℤ → Handler Payload (App E R)
  limited = rate_limit R (λ a. a.limiter) (λ l a. record a { limiter = l }) blocked

  module _ (J : Jwt) (S : Services) where
    -- `orderLimiter.Middleware()` before POST /orders, where it is enabled.
    unfoldable pub serve_user : ℤ → UserCall → Requests E R
    serve_user limit_now (create_order body reads) =
        if S.rate_limit_enabled
        then limited limit_now (handle_user E R S (create_order body reads))
        else handle_user E R S (create_order body reads)
    serve_user limit_now call = handle_user E R S call

    unfoldable pub serve_route : Passage → Route → Requests E R
    unfolding serve_user
    serve_route passage (open_to_all call) = handle_open E R J S call
    serve_route passage (signed_in call) =
        Auth.auth J S.auth.jwt_secret passage.token_now (serve_user passage.limit_now call)
    serve_route passage (admin_only call) =
        Auth.auth J S.auth.jwt_secret passage.token_now
          (require_role (admin ∷ []) (handle_admin E R S call))

    unfoldable pub serve : Passage → Route → Requests E R
    unfolding serve_route
    serve passage route = trace_id passage.trace_now passage.random (
        metrics R (λ f a. record a { metrics = f a.metrics }) passage.elapsed
          (request_timeout S.request_timeout passage.expired (serve_route passage route)))
