-- ===== src/Users/Tokens.antt =====
-- The claims of a token, `Claims` of internal/middleware/auth.go, and golang-jwt.
use go_order_lab.Prelude.{ℕ, ◌≡◌, Result, ok, ℤ, pos, ◌+ℤ◌, ◌≤ℤ◌, ◌<ℤ◌, Text}
use go_order_lab.Model.{UserRole}

pub record Claims : Type 0 where
  pub user_id : ℕ
  pub role : UserRole
  pub expires_at : ℤ
  pub issued_at : ℤ

-- The calls of golang-jwt, with HS256: `NewNumericDate`, which cuts an instant to the second, signing,
-- and `ParseWithClaims` at an instant, which refuses a token that is not valid.
pub record Jwt : Type 1 where
  pub numeric_date : ℤ → ℤ
  pub sign : Text → Claims → Result Text
  pub parse : Text → ℤ → Text → Result Claims
  pub numeric_date_near :
      (t : ℤ) → (numeric_date t ≤ℤ t) × (t <ℤ numeric_date t +ℤ pos 1_000_000_000)
  -- A token that was signed with the same secret is read back until it expires, and never as another.
  pub parse_live :
      (secret : Text) (c : Claims) (now : ℤ) (token : Text)
      → sign secret c ≡ ok token
      → now <ℤ c.expires_at
      → parse secret now token ≡ ok c
  pub parse_signed :
      (secret : Text) (c c' : Claims) (now : ℤ) (token : Text)
      → sign secret c ≡ ok token
      → parse secret now token ≡ ok c'
      → c' ≡ c
