-- ===== src/Users/Session.antt =====
-- From an account to the requests of its owner: AuthService of internal/service/auth.go behind the
-- middleware of internal/middleware/auth.go.
use go_order_lab.Prelude.{
  ◌<◌, ◌≡◌, refl, ap, ◌∙◌, true, false, some, [], ◌∷◌, ◌++◌, ok, ℤ, pos, ◌+ℤ◌, ◌≤ℤ◌, ◌<ℤ◌, int_laws,
  arith, Text, Result-cases, Bool-cases, inl, inr, none, ◌⊎◌, ◌==◌, ==_refl, codes,
}
use go_order_lab.Model.{User, UserRole, user, admin, is_valid_user_role}
use go_order_lab.Http.{Context, Chain, error_response}
use go_order_lab.Http.Auth.{bearer, after_prefix, is_acceptable, auth, require_role, user_role_of}
use go_order_lab.Users.Tokens.{Jwt}
use go_order_lab.Users.{AuthService, Clock, known_role, claims_of, sign_token, one_day}

after_prefix-append : (p s : Text) → after_prefix p (p ++ s) ≡ some s
unfolding after_prefix
after_prefix-append [] s = refl
after_prefix-append (c ∷ p) s = rw ==_refl (after_prefix-append p s)

known_role_valid : (r : UserRole) → is_valid_user_role (known_role r) ≡ true
unfolding is_valid_user_role
known_role_valid UserRole.user = refl
known_role_valid UserRole.admin = refl
known_role_valid (UserRole.other s) = refl

-- The rest of the chain was not run, and the request was refused.
pub record KeptOut {A T : Type 0} (s : T) (m : Context A × T) : Type 0 where
  pub same : m.1 ≡ s
  pub stopped : (m.0).aborted ≡ true
  pub refused :
      ((m.0).response ≡ some (error_response 401 (codes "invalid token")))
      ⊎ ((m.0).response ≡ some (error_response 403 (codes "forbidden")))

module _ (J : Jwt) (S : AuthService) (u : User) (clock : Clock) (token : Text) where
  -- The request of the holder of a token.
  abbrev pub IsBearer : {A : Type 0} → Context A → Type 0
  IsBearer c = c.authorization ≡ bearer ++ token

  -- A token of a user with a key opens the middleware for a day less a second.
  pub sign_token-auth :
      {A T : Type 0} (next : Chain A T) (c : Context A) (s : T) (now : ℤ)
      → sign_token J S u clock ≡ ok token
      → 0 < u.id
      → now +ℤ pos 1_000_000_000 ≤ℤ clock.expiry_now +ℤ one_day
      → IsBearer c
      → auth J S.jwt_secret now next (c, s)
        ≡ next (record c { user_id = some u.id; user_role = some (known_role u.role) }, s)
  unfolding auth sign_token
  sign_token-auth next c s now signed key early held =
      let near = J.numeric_date_near (clock.expiry_now +ℤ one_day) in
      let live : now <ℤ J.numeric_date (clock.expiry_now +ℤ one_day) = omega (int_laws, near) in
      let parsed = J.parse_live S.jwt_secret (claims_of J u clock) now token signed live in
      let valid = known_role_valid u.role in
      let known : (u.id == 0) ≡ false = ground arith in
      let found : after_prefix bearer c.authorization ≡ some token =
        ap (after_prefix bearer) held ∙ after_prefix-append bearer token in
      rw (auth, found, parsed, known, valid) refl

  -- A token that names no administrator runs no handler behind the administrators' check, at any time.
  pub sign_token-KeptOut :
      {A T : Type 0} (next : Chain A T) (c : Context A) (s : T) (now : ℤ)
      → sign_token J S u clock ≡ ok token
      → known_role u.role ≡ user
      → IsBearer c
      → c.response ≡ none
      → KeptOut s (auth J S.jwt_secret now (require_role (admin ∷ []) next) (c, s))
  unfolding auth sign_token require_role user_role_of
  sign_token-KeptOut {A} {T} next c s now signed plain held fresh =
      let found : after_prefix bearer c.authorization ≡ some token =
        ap (after_prefix bearer) held ∙ after_prefix-append bearer token in
      elim (Result-cases (J.parse S.jwt_secret now token)) [
        | inr (e, refused) ↦
            rw (auth, found, refused)
              (record { same = refl; stopped = refl; refused = inl (ground arith) })
        | inl (d, parsed) ↦
            (let own =
                J.parse_signed S.jwt_secret (claims_of J u clock) d now token signed parsed in
              let role : d.role ≡ user = ap (λ x. x.role) own ∙ plain in
              elim (Bool-cases (is_acceptable d)) [
                | inr bad ↦
                    rw (auth, found, parsed, bad)
                      (record { same = refl; stopped = refl; refused = inl (ground arith) })
                | inl good ↦
                    rw (auth, found, parsed, good)
                      (rw (require_role, user_role_of, role)
                        (record { same = refl; stopped = refl; refused = inr (ground arith) }))
              ])
      ]
