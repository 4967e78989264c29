-- ===== src/Users.antt =====
-- `AuthService` of internal/service/auth.go. A text is its bytes. SHA-256 is any function here.
use go_order_lab.Prelude.{
  ℕ, ◌/◌, ◌%◌, ◌+◌, ◌-◌, Bool, true, false, not, ◌||◌, List, [], ◌∷◌, ◌++◌, Result, ok, err, Error,
  record_not_found, failure, Action, query, query_or, pure, raise, raise_if, ◌>>=◌, ◌>>◌, ℤ, pos,
  ◌+ℤ◌, ltb, Text, codes, text_eq, length, if◌then◌else◌,
}
use go_order_lab.Store.Rows.{stamp}
use go_order_lab.Model.{User, user_columns, UserRole, user, admin, is_valid_user_role, no_base}
use go_order_lab.Env.{Env, World, save_user, create_user}
use go_order_lab.Users.Tokens.{Claims, Jwt}
pub mod Tokens
pub mod Session
pub mod Accounts
pub mod Administrator

-- `hex.EncodeToString`
abbrev pub hex_digit : ℕ → ℕ
hex_digit n = if ltb n 10 then b'0' + n else b'a' + (n - 10)

abbrev pub to_hex : Text → Text
to_hex [] = []
to_hex (c ∷ s) = hex_digit (c / 16) ∷ hex_digit (c % 16) ∷ to_hex s

-- What the service holds, and what a call reads from its surroundings: the clock, at both reads.
pub record AuthService : Type 0 where
  pub jwt_secret : Text
  pub sha256 : Text → Text

pub record Clock : Type 0 where
  pub expiry_now : ℤ
  pub issue_now : ℤ

unfoldable pub hash_password : AuthService → Text → Text
hash_password S password = to_hex (S.sha256 (codes "order-lab:" ++ password))

abbrev pub is_too_short : Text → Text → Bool
is_too_short username password = text_eq username [] || ltb (length password) 6

abbrev pub has_username : Text → User → Bool
has_username username u = text_eq username u.username

abbrev pub new_user : AuthService → Text → Text → UserRole → User
new_user S username password role = record {
  base = no_base;
  username = username;
  password_hash = hash_password S password;
  role = role;
}

-- Any other role counts as that of a user.
abbrev pub known_role : UserRole → UserRole
known_role role = if is_valid_user_role role then role else user

abbrev pub one_day : ℤ
one_day = pos 86_400_000_000_000

module _ (J : Jwt) where
  abbrev pub claims_of : User → Clock → Claims
  claims_of u clock = record {
    user_id = u.id;
    role = known_role u.role;
    expires_at = J.numeric_date (clock.expiry_now +ℤ one_day);
    issued_at = J.numeric_date clock.issue_now;
  }

  unfoldable pub sign_token : AuthService → User → Clock → Result Text
  sign_token S u clock = J.sign S.jwt_secret (claims_of u clock)

  module _ (E : Env) where
    unfoldable pub register : AuthService → Text → Text → Clock → Action (World E) (User × Text)
    unfolding sign_token
    register S username password clock = do
      raise_if (is_too_short username password)
          (failure (codes "username and password length >= 6 are required"))
      u ← create_user E (new_user S username password user)
      token ← query (λ w. sign_token S u clock)
      pure (u, token)

    -- Whether the name or the password is wrong is not told apart.
    unfoldable pub login : AuthService → Text → Text → Clock → Action (World E) (User × Text)
    unfolding sign_token hash_password
    login S username password clock = do
      u ←
          query_or (failure (codes "invalid username or password"))
            (λ w. E.users.first (has_username username) w.db.users)
      raise_if (not (text_eq u.password_hash (hash_password S password)))
          (failure (codes "invalid username or password"))
      let u' = record u { role = known_role u.role }
      token ← query (λ w. sign_token S u' clock)
      pure (u', token)

    -- The account is made, or its password and role are set; `Save` writes the time into the row.
    unfoldable pub ensure_admin : AuthService → Text → Text → Action (World E) User
    unfolding hash_password
    ensure_admin S username password = do
      raise_if (is_too_short username password)
          (failure (codes "admin username and password length >= 6 are required"))
      λ w. elim (E.users.first (has_username username) w.db.users) [
        | ok u ↦
            (let u' = record u { password_hash = hash_password S password; role = admin } in
              (save_user E u' >> pure (stamp user_columns (E.users.clock w.db.users) u')) w)
        | err record_not_found ↦ create_user E (new_user S username password admin) w
        | err e ↦ (err e, w)
      ]
