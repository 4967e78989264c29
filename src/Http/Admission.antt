-- ===== src/Http/Admission.antt =====
-- Whom the middleware of internal/middleware/auth.go lets through.
use go_order_lab.Prelude.{
  ◌≡◌, ◌≢◌, refl, true, some, Option-cases, [], ◌∷◌, ◌++◌, ok, Result-cases, Bool-cases, inl, inr,
  ◌⊎◌, ℤ, Text, codes, arith,
}
use go_order_lab.Model.{UserRole, admin}
use go_order_lab.Users.Tokens.{Claims, Jwt}
use go_order_lab.Http.{Context, Chain, refuse}
use go_order_lab.Http.Auth.{
  role_in, after_prefix, bearer, is_acceptable, auth, require_role, user_role_of,
}

-- The request carries a token that the parser accepts at an instant, with these claims.
pub record HasToken {A : Type 0} (J : Jwt) (secret : Text) (now : ℤ) (c : Context A)
    (claims : Claims) : Type 0 where
  pub token : Text
  pub held : c.authorization ≡ bearer ++ token
  pub parsed : J.parse secret now token ≡ ok claims

after_prefix-some : (p s t : Text) → after_prefix p s ≡ some t → s ≡ p ++ t
unfolding after_prefix
after_prefix-some [] s t h = ground arith
after_prefix-some (c ∷ p) [] t h = cc
after_prefix-some (c ∷ p) (d ∷ s) t h = ground (arith, after_prefix-some p s t)

module _ {A S : Type 0} (J : Jwt) (secret : Text) (now : ℤ) (next : Chain A S) (c : Context A)
    (s : S) where
  abbrev pub admitted : Claims → Context A
  admitted claims = record c { user_id = some claims.user_id; user_role = some claims.role }

  -- The middleware answers 401, or the request carries a token whose claims the rest of the chain runs
  -- under.
  pub auth_cases :
      ((message : Text) × (auth J secret now next (c, s) ≡ (refuse 401 message c, s)))
      ⊎ ((claims : Claims) × HasToken J secret now c claims
          × (claims.user_id ≢ 0)
          × (auth J secret now next (c, s) ≡ next (admitted claims, s)))
  unfolding auth
  auth_cases = elim (Option-cases (after_prefix bearer c.authorization)) [
    | inl e ↦ inl (codes "missing bearer token", rw (auth, e) refl)
    | inr (token, e) ↦ elim (Result-cases (J.parse secret now token)) [
      | inr (x, bad) ↦ inl (codes "invalid token", rw (auth, e, bad) refl)
      | inl (claims, good) ↦ elim (Bool-cases (is_acceptable claims)) [
        | inr no_one ↦ inl (codes "invalid token", rw (auth, e, good, no_one) refl)
        | inl known ↦ inr (
          claims,
          record {
            token = token;
            held = after_prefix-some bearer c.authorization token e;
            parsed = good;
          },
          (λ zero_id. ground arith),
          rw (auth, e, good, known) refl,
        )
      ]
    ]
  ]

role_in_admin : (r : UserRole) → role_in r (admin ∷ []) ≡ true → r ≡ admin
role_in_admin UserRole.user h = cc
role_in_admin UserRole.admin h = refl
role_in_admin (UserRole.other t) h = cc

-- The check for administrators answers 403, or the role is that of an administrator and the rest runs.
pub require_admin_cases :
    {A S : Type 0} (next : Chain A S) (c : Context A) (s : S)
    → (require_role (admin ∷ []) next (c, s) ≡ (refuse 403 (codes "forbidden") c, s))
      ⊎ ((user_role_of c ≡ admin) × (require_role (admin ∷ []) next (c, s) ≡ next (c, s)))
unfolding require_role
require_admin_cases next c s = elim (Bool-cases (role_in (user_role_of c) (admin ∷ []))) [
  | inr other ↦ inl (rw (require_role, other) refl)
  | inl own ↦ inr (role_in_admin (user_role_of c) own, rw (require_role, own) refl)
]
