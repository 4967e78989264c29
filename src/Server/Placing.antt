-- ===== src/Server/Placing.antt =====
-- POST /orders of cmd/server/main.go, from the token to the tables.
use go_order_lab.Prelude.{
  ℕ, ◌≡◌, ◌≢◌, refl, sym, ap, subst, ◌∙◌, none, Result, inl, inr, ◌⊎◌, Bool-cases, codes, arith,
}
use go_order_lab.Floats.{Floats}
use go_order_lab.Env.{Env, World}
use go_order_lab.Env.Atomic.{SameTables, SameTables-refl}
use go_order_lab.Orders.Effect.Create.{Created}
use go_order_lab.Users.Tokens.{Claims, Jwt}
use go_order_lab.Orders.Create.{CreateOrderInput, Reads}
use go_order_lab.Http.{Context}
use go_order_lab.Http.Auth.{user_id_of}
use go_order_lab.Http.Admission.{HasToken, auth_cases, admitted}
use go_order_lab.Http.RateLimit.{allow}
use go_order_lab.Handlers.Orders as OrderHandler
use go_order_lab.Http.Passing.{rate_limit_cases}
use go_order_lab.Http.Answers.{Payload, App}
use go_order_lab.Handlers.Orders.{accepted_answer}
use go_order_lab.Handlers.Placed.{Accepted, Declined, create_order-answers}
use go_order_lab.Server.Routes.{Services, create_order, handle_user}
use go_order_lab.Server.Chains.{signed_in, Passage, blocked, serve_user, serve_route, serve}
use go_order_lab.Server.Guards.{traced, serve_around}

module _ (E : Env) (R : Floats) (J : Jwt) (S : Services) (passage : Passage) where
  -- The order of the token's user was placed and the answer names it.
  pub record Placed (body : Result CreateOrderInput) (reads : Reads) (c : Context Payload)
      (w : World E) (m : Context Payload × App E R) : Type 0 where
    pub claims : Claims
    pub token : HasToken J S.auth.jwt_secret passage.token_now c claims
    pub has_key : claims.user_id ≢ 0
    pub accepted : Accepted w m S.orders body reads claims.user_id

  module _ (body : Result CreateOrderInput) (reads : Reads) where
    -- The two outcomes, before the token is looked at.
    abbrev Answered : ℕ → World E → Context Payload × App E R → Type 0
    Answered user_id w m = Accepted w m S.orders body reads user_id ⊎ Declined w m

    limited_answers :
        (c : Context Payload) (a : App E R)
        → c.response ≡ none
        → Answered
            (user_id_of c)
            a.world
            (serve_user E R J S passage.limit_now (create_order body reads) (c, a))
    unfolding serve_user handle_user
    limited_answers c a fresh =
        let next = OrderHandler.create_order E R S.orders body reads in
        let l = (allow R passage.limit_now a.limiter).1 in
        elim (Bool-cases S.rate_limit_enabled) [
          | inr off ↦ rw (serve_user, off) (create_order-answers E R S.orders reads body c a fresh)
          | inl on ↦
              rw (serve_user, on)
                (elim (rate_limit_cases next c a R (λ b. b.limiter)
                  (λ k b. record b { limiter = k }) (blocked E R) passage.limit_now) [
                    | inr passes ↦ subst (Answered (user_id_of c) a.world) (sym passes) (
                        create_order-answers E R S.orders reads body c (record a { limiter = l })
                          fresh)
                    | inl stopped ↦ subst (Answered (user_id_of c) a.world) (sym stopped) (
                        inr (record {
                          status = 429;
                          message = codes "too many requests";
                          answer = rw fresh refl;
                          is_error = omega arith;
                          tables = SameTables-refl E a.world.db;
                        }))
                  ])
        ]

    module _ (c : Context Payload) (a : App E R) where
      -- The request behind the first middleware, and the whole of it.
      abbrev pub inside : Context Payload × App E R
      inside =
          serve_route E R J S passage (signed_in (create_order body reads))
            (traced E R J S passage c, a)

      abbrev pub outside : Context Payload × App E R
      outside = serve E R J S passage (signed_in (create_order body reads)) (c, a)

      declined_outside : Declined a.world inside → Declined a.world outside
      declined_outside declined =
          let (answer, world, limiter) =
            serve_around E R J S passage (signed_in (create_order body reads)) c a _
              (declined.answer) in
          record {
            status = declined.status;
            message = declined.message;
            answer = answer;
            is_error = declined.is_error;
            tables = subst (λ w. SameTables E a.world.db w.db) (sym world) declined.tables;
          }

      accepted_outside :
          (user_id : ℕ)
          → Accepted a.world inside S.orders body reads user_id
          → Accepted a.world outside S.orders body reads user_id
      accepted_outside user_id accepted =
          let (answer, world, limiter) =
            serve_around E R J S passage (signed_in (create_order body reads)) c a _
              (accepted.answer) in
          record {
            input = accepted.input;
            decoded = accepted.decoded;
            order = accepted.order;
            stock_left = accepted.stock_left;
            answer = answer;
            created =
                subst
                  (λ w.
                    Created E user_id reads S.orders accepted.input.activity_id accepted.order
                      a.world w)
                  (sym world) accepted.created;
          }

      admitted_answers :
          (claims : Claims)
          → HasToken J S.auth.jwt_secret passage.token_now c claims
          → claims.user_id ≢ 0
          → Answered claims.user_id a.world inside
          → Placed body reads c a.world outside ⊎ Declined a.world outside
      admitted_answers claims token known (inl accepted) = inl (record {
        claims = claims;
        token = token;
        has_key = known;
        accepted = accepted_outside claims.user_id accepted;
      })
      admitted_answers claims token known (inr declined) = inr (declined_outside declined)

      -- POST /orders answers 202 with an order of the token's user that is a new row now, or an
      -- error's status, and then no table but the log has changed. The limiter may be on or off.
      pub serve-create_order :
          c.response ≡ none → Placed body reads c a.world outside ⊎ Declined a.world outside
      unfolding serve_route user_id_of
      serve-create_order fresh =
          let next = serve_user E R J S passage.limit_now (create_order body reads) in
          let d = traced E R J S passage c in
          elim (auth_cases J S.auth.jwt_secret passage.token_now next d a) [
            | inl (message, out) ↦ inr (
                declined_outside (record {
                  status = 401;
                  message = message;
                  answer = ap (λ m. m.0.response) out ∙ rw fresh refl;
                  is_error = omega arith;
                  tables =
                      subst (λ m. SameTables E a.world.db m.1.world.db) (sym out)
                        (SameTables-refl E a.world.db);
                }))
            | inr (claims, has, known, out) ↦
                admitted_answers claims
                  (record { token = has.token; held = has.held; parsed = has.parsed }) known
                  (subst (Answered claims.user_id a.world) (sym out) (
                    limited_answers (admitted J S.auth.jwt_secret passage.token_now next d a claims)
                      a fresh))
          ]
