-- ===== src/Server/Guards.antt =====
-- Who gets past the middleware of cmd/server/main.go, whatever the handlers do.
use go_order_lab.Prelude.{
  ℕ, ◌≡◌, ◌≢◌, refl, ap, ◌∙◌, Bool, true, false, none, some, ok, inl, inr, ◌⊎◌, Text, text_eq, [],
  ◌∷◌, codes, if◌then◌else◌,
}
use go_order_lab.Floats.{Floats}
use go_order_lab.Model.{User, admin}
use go_order_lab.Env.{Env, World}
use go_order_lab.Users.Tokens.{Claims, Jwt}
use go_order_lab.Users.{Clock, register}
use go_order_lab.Users.Session.{IsBearer}
use go_order_lab.Users.Accounts.{register-KeptOut}
use go_order_lab.Http.{Response, Context, error_response}
use go_order_lab.Http.Auth.{require_role, user_role_of}
use go_order_lab.Http.Admission.{HasToken, auth_cases, require_admin_cases}
use go_order_lab.Http.Middleware.{trace_id, new_trace_id, request_timeout}
use go_order_lab.Http.Passing.{request_timeout_answered, metrics_lem}
use go_order_lab.Http.Answers.{Payload, App}
use go_order_lab.Server.Routes.{Services, AdminCall, UserCall, handle_admin}
use go_order_lab.Server.Chains.{
  Route, open_to_all, signed_in, admin_only, Passage, serve_user, serve_route, serve,
}

-- The middleware answered 401 or 403, and neither the services nor the limiter changed.
pub record Refused {E : Env} {R : Floats} (a : App E R) (m : Context Payload × App E R)
    : Type 0 where
  pub status : ℕ
  pub message : Text
  pub answer : (m.0).response ≡ some (error_response status message)
  pub unauthorized_or_forbidden : (status ≡ 401) ⊎ (status ≡ 403)
  pub world : (m.1).world ≡ a.world
  pub limiter : (m.1).limiter ≡ a.limiter

-- What a route asks of the claims beyond a user.
abbrev pub Suffices : Route → Claims → Type 0
Suffices (open_to_all call) claims = Unit
Suffices (signed_in call) claims = Unit
Suffices (admin_only call) claims = claims.role ≡ admin

abbrev pub needs_token : Route → Bool
needs_token (open_to_all call) = false
needs_token (signed_in call) = true
needs_token (admin_only call) = true

module _ (E : Env) (R : Floats) (J : Jwt) (S : Services) (passage : Passage) where
  -- The context behind the trace.
  abbrev pub traced : Context Payload → Context Payload
  traced c =
      let id =
        if text_eq c.trace_header []
        then new_trace_id passage.trace_now passage.random
        else c.trace_header in
      record c { trace_id = some id; trace_reply = some id }

  -- The middleware around a route keeps the answer that the route wrote, and changes counters only.
  pub serve_around :
      (route : Route) (c : Context Payload) (a : App E R) (r : Response Payload)
      → (serve_route E R J S passage route (traced c, a)).0.response ≡ some r
      → ((serve E R J S passage route (c, a)).0.response ≡ some r)
        × ((serve E R J S passage route (c, a)).1.world
            ≡ (serve_route E R J S passage route (traced c, a)).1.world)
        × ((serve E R J S passage route (c, a)).1.limiter
            ≡ (serve_route E R J S passage route (traced c, a)).1.limiter)
  unfolding serve trace_id
  serve_around route c a r written =
      let h = serve_route E R J S passage route in
      let same =
        request_timeout_answered h (traced c) a S.request_timeout passage.expired r written in
      let (out, (f, left)) =
        metrics_lem (request_timeout S.request_timeout passage.expired h) (traced c) a R
          (λ g b. record b { metrics = g b.metrics }) passage.elapsed in
      (
        ap (λ d. d.response) out ∙ ap (λ m. m.0.response) same ∙ written,
        ap (λ b. b.world) left ∙ ap (λ m. m.1.world) same,
        ap (λ b. b.limiter) left ∙ ap (λ m. m.1.limiter) same,
      )

  -- A refusal of the middleware inside is the answer outside.
  Refused-inside :
      (route : Route) (c : Context Payload) (a : App E R) (status : ℕ) (message : Text)
      → (status ≡ 401) ⊎ (status ≡ 403)
      → ((serve_route E R J S passage route (traced c, a)).0.response
          ≡ some (error_response status message))
      → ((serve_route E R J S passage route (traced c, a)).1 ≡ a)
      → Refused a (serve E R J S passage route (c, a))
  Refused-inside route c a status message which written same =
      let (answer, world, limiter) =
        serve_around route c a (error_response status message) written in
      record {
        status = status;
        message = message;
        answer = answer;
        unauthorized_or_forbidden = which;
        world = world ∙ ap (λ b. b.world) same;
        limiter = limiter ∙ ap (λ b. b.limiter) same;
      }

  -- The claims that a request is admitted under.
  abbrev pub Admitted : Route → Context Payload → Claims → Type 0
  Admitted route c claims =
      HasToken J S.auth.jwt_secret passage.token_now c claims
      × (claims.user_id ≢ 0)
      × Suffices route claims

  guarded_user :
      (call : UserCall) (c : Context Payload) (a : App E R)
      → c.response ≡ none
      → Refused a (serve E R J S passage (signed_in call) (c, a))
        ⊎ ((claims : Claims) × Admitted (signed_in call) c claims)
  unfolding serve_route
  guarded_user call c a fresh =
      elim (auth_cases J S.auth.jwt_secret passage.token_now
        (serve_user E R J S passage.limit_now call) (traced c) a) [
          | inl (message, out) ↦ inl (
              Refused-inside (signed_in call) c a 401 message (inl refl)
                (ap (λ m. m.0.response) out ∙ rw fresh refl) (ap (λ m. m.1) out))
          | inr (claims, has, known, out) ↦ inr (
            claims,
            (record { token = has.token; held = has.held; parsed = has.parsed }, known, tt),
          )
        ]

  guarded_admin :
      (call : AdminCall) (c : Context Payload) (a : App E R)
      → c.response ≡ none
      → Refused a (serve E R J S passage (admin_only call) (c, a))
        ⊎ ((claims : Claims) × Admitted (admin_only call) c claims)
  unfolding serve_route user_role_of
  guarded_admin call c a fresh =
      let next = handle_admin E R S call in
      elim (auth_cases J S.auth.jwt_secret passage.token_now (require_role (admin ∷ []) next)
        (traced c) a) [
          | inl (message, out) ↦ inl (
              Refused-inside (admin_only call) c a 401 message (inl refl)
                (ap (λ m. m.0.response) out ∙ rw fresh refl) (ap (λ m. m.1) out))
          | inr (claims, has, known, out) ↦
              elim (require_admin_cases next
                (record (traced c) { user_id = some claims.user_id; user_role = some claims.role })
                a) [
                  | inl forbidden ↦ inl (
                      Refused-inside (admin_only call) c a 403 (codes "forbidden") (inr refl)
                        (ap (λ m. m.0.response) (out ∙ forbidden) ∙ rw fresh refl)
                        (ap (λ m. m.1) (out ∙ forbidden)))
                  | inr (role, passed) ↦ inr (
                    claims,
                    (
                      record { token = has.token; held = has.held; parsed = has.parsed },
                      known,
                      role,
                    ),
                  )
                ]
        ]

  -- A request to a route behind the sign-in is answered 401 or 403, with no change to the services and
  -- to the limiter, unless it carries a token that the parser accepts at the instant of the check, of
  -- a user with a key, and for a route of the administrators with their role.
  pub serve-guarded :
      (route : Route) (c : Context Payload) (a : App E R)
      → needs_token route ≡ true
      → c.response ≡ none
      → Refused a (serve E R J S passage route (c, a))
        ⊎ ((claims : Claims) × Admitted route c claims)
  serve-guarded (open_to_all call) c a needed fresh = cc
  serve-guarded (signed_in call) c a needed fresh = guarded_user call c a fresh
  serve-guarded (admin_only call) c a needed fresh = guarded_admin call c a fresh

  -- The token of a registration is refused on every route of the administrators, at any time and
  -- whatever else the request holds, and the call changes nothing but counters.
  pub register-serve :
      (username password : Text) (clock : Clock) (w : World E) (u : User) (token : Text)
      (call : AdminCall) (c : Context Payload) (a : App E R)
      → (register J E S.auth username password clock w).0 ≡ ok (u, token)
      → IsBearer J S.auth u clock token c
      → c.response ≡ none
      → Refused a (serve E R J S passage (admin_only call) (c, a))
  unfolding serve_route
  register-serve username password clock w u token call c a done held fresh =
      let out =
        register-KeptOut J E S.auth username password clock w u token done (handle_admin E R S call)
          (traced c) a passage.token_now held fresh in
      elim (out.refused) [
        | inl e ↦
            Refused-inside (admin_only call) c a 401 (codes "invalid token") (inl refl) e (out.same)
        | inr e ↦
            Refused-inside (admin_only call) c a 403 (codes "forbidden") (inr refl) e (out.same)
      ]
