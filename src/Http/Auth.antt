-- ===== src/Http/Auth.antt =====
-- internal/middleware/auth.go.
use go_order_lab.Prelude.{
  ℕ, Bool, true, false, not, ◌&&◌, ◌||◌, Option, none, some, List, [], ◌∷◌, Result, ok, err, ℤ,
  ◌==◌, Text, codes, text_eq, if◌then◌else◌,
}
use go_order_lab.Model.{UserRole, is_valid_user_role}
use go_order_lab.Users.Tokens.{Claims, Jwt}
use go_order_lab.Http.{Context, Handler, refuse}

abbrev pub role_eq : UserRole → UserRole → Bool
role_eq UserRole.user UserRole.user = true
role_eq UserRole.admin UserRole.admin = true
role_eq (UserRole.other s) (UserRole.other t) = text_eq s t
role_eq _ _ = false

-- `strings.TrimPrefix` behind `strings.HasPrefix`: what follows the prefix.
unfoldable pub after_prefix : Text → Text → Option Text
after_prefix [] s = some s
after_prefix (c ∷ p) [] = none
after_prefix (c ∷ p) (d ∷ s) = if c == d then after_prefix p s else none

abbrev pub bearer : Text
bearer = codes "Bearer "

abbrev pub is_acceptable : Claims → Bool
is_acceptable c = not (c.user_id == 0) && is_valid_user_role c.role

abbrev pub role_in : UserRole → List UserRole → Bool
role_in role [] = false
role_in role (r ∷ rs) = role_eq r role || role_in role rs

module _ {A : Type 0} where
  -- `UserID` and `UserRole`: 0 and the empty text where nothing was set.
  unfoldable pub user_id_of : Context A → ℕ
  user_id_of c = elim c.user_id [ none ↦ 0 | some u ↦ u ]

  unfoldable pub user_role_of : Context A → UserRole
  user_role_of c = elim c.user_role [ none ↦ UserRole.other [] | some r ↦ r ]

module _ {A S : Type 0} where
  abbrev pub admit : Result Claims → Handler A S
  admit (err e) next (c, s) = (refuse 401 (codes "invalid token") c, s)
  admit (ok claims) next (c, s) =
      if is_acceptable claims
      then next (record c { user_id = some claims.user_id; user_role = some claims.role }, s)
      else (refuse 401 (codes "invalid token") c, s)

  -- `Auth`, at the instant of the parse.
  unfoldable pub auth : Jwt → Text → ℤ → Handler A S
  auth J secret now next (c, s) = elim (after_prefix bearer c.authorization) [
    | none ↦ (refuse 401 (codes "missing bearer token") c, s)
    | some token ↦ admit (J.parse secret now token) next (c, s)
  ]

  unfoldable pub require_role : List UserRole → Handler A S
  unfolding user_role_of
  require_role roles next (c, s) =
      if role_in (user_role_of c) roles then next (c, s) else (refuse 403 (codes "forbidden") c, s)
