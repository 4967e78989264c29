-- ===== src/Tests/Accounts.antt =====
-- The theorems on accounts and tokens at a concrete shop.
use go_order_lab.Prelude.{
  ℕ, ◌*◌, ◌+◌, ◌/◌, ◌≡◌, refl, false, Option, none, some, [], ◌∷◌, ◌++◌, Result, ok, err, ℤ, pos,
  negsuc, ◌+ℤ◌, ◌≤ℤ◌, ◌<ℤ◌, ltb_ℤ, arith, Text, codes, text_eq, Bool-cases, if◌then◌else◌, failure,
  int_laws, ap, sym, ◌∙◌, ◌==◌,
}
use go_order_lab.Store.Rows.{stamp_new}
use go_order_lab.Model.{User, UserRole, user, admin, user_columns, wait_pay, is_valid_user_role}
use go_order_lab.Env.{World}
use go_order_lab.Http.{Context, Chain}
use go_order_lab.Http.Auth.{bearer, auth}
use go_order_lab.Users.Tokens.{Claims, Jwt}
use go_order_lab.Users.{
  AuthService, Clock, hash_password, new_user, register, login, sign_token, claims_of, has_username,
  one_day,
}
use go_order_lab.Users.Accounts.{with_token, register-login, login-auth}
use go_order_lab.Tests.Shop.{shop, open_shop}

-- Tokens that hold their claims in the clear.
abbrev pub print_instant : ℤ → Text → Text
print_instant (pos n) s = 0 ∷ n ∷ s
print_instant (negsuc n) s = 1 ∷ n ∷ s

abbrev pub print_role : UserRole → Text
print_role UserRole.user = 0 ∷ []
print_role UserRole.admin = 1 ∷ []
print_role (UserRole.other s) = 2 ∷ s

abbrev pub print_claims : Claims → Text
print_claims c =
    c.user_id ∷ print_instant c.expires_at (print_instant c.issued_at (print_role c.role))

abbrev pub instant : ℕ → ℕ → ℤ
instant sign n = if sign == 0 then pos n else negsuc n

abbrev pub role_of : ℕ → Text → UserRole
role_of k s = if k == 0 then user else if k == 1 then admin else UserRole.other s

abbrev pub read_claims : Text → Option Claims
read_claims (u ∷ a ∷ m ∷ b ∷ n ∷ k ∷ s) =
    some (record {
      user_id = u;
      expires_at = instant a m;
      issued_at = instant b n;
      role = role_of k s;
    })
read_claims _ = none

read_parts :
    (u : ℕ) (e i : ℤ) (r : UserRole)
    → read_claims (print_claims (record { user_id = u; expires_at = e; issued_at = i; role = r }))
      ≡ some (record { user_id = u; expires_at = e; issued_at = i; role = r })
read_parts u (pos m) (pos n) UserRole.user = refl
read_parts u (pos m) (pos n) UserRole.admin = refl
read_parts u (pos m) (pos n) (UserRole.other s) = refl
read_parts u (pos m) (negsuc n) UserRole.user = refl
read_parts u (pos m) (negsuc n) UserRole.admin = refl
read_parts u (pos m) (negsuc n) (UserRole.other s) = refl
read_parts u (negsuc m) (pos n) UserRole.user = refl
read_parts u (negsuc m) (pos n) UserRole.admin = refl
read_parts u (negsuc m) (pos n) (UserRole.other s) = refl
read_parts u (negsuc m) (negsuc n) UserRole.user = refl
read_parts u (negsuc m) (negsuc n) UserRole.admin = refl
read_parts u (negsuc m) (negsuc n) (UserRole.other s) = refl

read-print : (c : Claims) → read_claims (print_claims c) ≡ some c
read-print c = read_parts c.user_id c.expires_at c.issued_at c.role

abbrev pub live_claims : ℤ → Option Claims → Result Claims
live_claims now none = err (failure (codes "token is malformed"))
live_claims now (some c) =
    if ltb_ℤ now c.expires_at then ok c else err (failure (codes "token is expired"))

abbrev pub whole_second : ℤ → ℤ
whole_second (pos n) = pos (n / 1_000_000_000 * 1_000_000_000)
whole_second (negsuc n) = negsuc n

pub whole_second_near : (t : ℤ) → (whole_second t ≤ℤ t) × (t <ℤ whole_second t +ℤ pos 1_000_000_000)
whole_second_near (pos n) = omega int_laws
whole_second_near (negsuc n) = omega int_laws

pub parse_live :
    (c : Claims) (now : ℤ)
    → now <ℤ c.expires_at
    → live_claims now (read_claims (print_claims c)) ≡ ok c
parse_live c now h = rw read-print (ground arith)

pub parse_signed :
    (c c' : Claims) (now : ℤ) (token : Text)
    → ◌≡◌ {A = Result Text} (ok (print_claims c)) (ok token)
    → live_claims now (read_claims token) ≡ ok c'
    → c' ≡ c
parse_signed c c' now token signed parsed =
    let same : print_claims c ≡ token = ground arith in
    let read : read_claims token ≡ some c = ap read_claims (sym same) ∙ read-print c in
    let found : live_claims now (some c) ≡ ok c' = ap (live_claims now) (sym read) ∙ parsed in
    ground arith

pub signed_text :
    (c : Claims) (token : Text)
    → ◌≡◌ {A = Result Text} (ok (print_claims c)) (ok token)
    → print_claims c ≡ token
signed_text c token signed = ground arith

abbrev pub clear_tokens : Jwt
clear_tokens = record {
  numeric_date = whole_second;
  sign = λ secret c. ok (print_claims c);
  parse = λ secret now token. live_claims now (read_claims token);
  numeric_date_near = whole_second_near;
  parse_live = λ secret c now token signed live.
      ap (live_claims now) (ap read_claims (sym (signed_text c token signed)))
      ∙ parse_live c now live;
  parse_signed = λ secret c c' now token signed parsed. parse_signed c c' now token signed parsed;
}

abbrev pub auth_service : AuthService
auth_service = record { jwt_secret = codes "s"; sha256 = λ s. s }

abbrev pub morning : Clock
morning = record { expiry_now = pos 100; issue_now = pos 100 }

abbrev pub ann : User
ann =
    stamp_new user_columns 100 (pos 500) (new_user auth_service (codes "ann") (codes "secret") user)

abbrev pub ann_token : Text
ann_token = print_claims (claims_of clear_tokens ann morning)

pub ann_registers :
    (register clear_tokens shop auth_service
      (codes "ann")
      (codes "secret")
      morning
      (open_shop wait_pay)).0
    ≡ ok (ann, ann_token)
unfolding register hash_password text_eq is_valid_user_role Bool-cases
ann_registers = refl

abbrev with_ann : World shop
with_ann =
    (register clear_tokens shop auth_service (codes "ann") (codes "secret") morning
      (open_shop wait_pay)).1

ann_is_found : shop.users.first (has_username (codes "ann")) with_ann.db.users ≡ ok ann
unfolding register hash_password text_eq is_valid_user_role Bool-cases
ann_is_found = refl

register-login_example :
    (login clear_tokens shop auth_service (codes "ann") (codes "secret") morning with_ann).0 ≡ (
      if text_eq
        (hash_password auth_service (codes "secret"))
        (hash_password auth_service (codes "secret"))
      then with_token ann (sign_token clear_tokens auth_service ann morning)
      else err (failure (codes "invalid username or password")))
register-login_example =
    register-login clear_tokens shop auth_service (codes "ann") (codes "secret") morning
      (open_shop wait_pay) ann ann_token ann_registers (codes "secret") morning ann ann_is_found

abbrev ann_asks : Context ℕ
ann_asks = record {
  method = codes "GET";
  full_path = codes "/api/admin/overview";
  url_path = codes "/api/admin/overview";
  authorization = bearer ++ ann_token;
  trace_header = [];
  user_id = none;
  user_role = none;
  trace_id = none;
  trace_reply = none;
  response = none;
  aborted = false;
}

-- A handler that counts its runs.
abbrev counting : Chain ℕ ℕ
counting (c, n) = (c, n + 1)

ann_logs_in :
    (login clear_tokens shop auth_service (codes "ann") (codes "secret") morning with_ann).0
    ≡ ok (ann, ann_token)
unfolding register login hash_password text_eq is_valid_user_role Bool-cases
ann_logs_in = refl

ann_early : pos 1000 +ℤ pos 1_000_000_000 ≤ℤ morning.expiry_now +ℤ one_day
ann_early = omega int_laws

login-auth_example :
    auth clear_tokens (codes "s") (pos 1000) counting (ann_asks, 0)
    ≡ counting (record ann_asks { user_id = some ann.id; user_role = some ann.role }, 0)
login-auth_example =
    login-auth clear_tokens shop auth_service (codes "ann") (codes "secret") morning counting
      ann_asks 0 (pos 1000) with_ann ann ann_token ann_logs_in ann_early refl
