-- ===== src/Tests/Administrator.antt =====
-- The administrator's account at a shop that has none and a user of that name.
use go_order_lab.Prelude.{◌≡◌, refl, [], ◌∷◌, ok, pos, codes, Bool-cases, text_eq}
use go_order_lab.Store.Rows.{stamp}
use go_order_lab.Model.{User, user_columns, admin, user, wait_pay}
use go_order_lab.Env.{World}
use go_order_lab.Users.{hash_password, ensure_admin, login, sign_token, has_username}
use go_order_lab.Users.Accounts.{with_token}
use go_order_lab.Users.Administrator.{ensure_admin-login}
use go_order_lab.Tests.Shop.{shop, open_shop, table, base_of}
use go_order_lab.Tests.Accounts.{clear_tokens, auth_service, morning}

abbrev plain_root : User
plain_root = record {
  base = base_of 2;
  username = codes "root";
  password_hash = codes "h";
  role = user;
}

abbrev old_shop : World shop
old_shop = record (open_shop wait_pay) {
  db = record ((open_shop wait_pay).db) { users = table user_columns (plain_root ∷ []) refl };
}

abbrev root : User
root = stamp user_columns (pos 500) (record plain_root {
  password_hash = hash_password auth_service (codes "secret");
  role = admin;
})

root_is_admin :
    (ensure_admin clear_tokens shop auth_service (codes "root") (codes "secret") old_shop).0
    ≡ ok root
unfolding ensure_admin hash_password text_eq Bool-cases
root_is_admin = refl

root_is_found :
    shop.users.first
      (has_username (codes "root"))
      (ensure_admin clear_tokens shop auth_service
        (codes "root")
        (codes "secret")
        old_shop).1.db.users
    ≡ ok root
unfolding ensure_admin hash_password text_eq Bool-cases
root_is_found = refl

ensure_admin-login_example :
    ((login clear_tokens shop auth_service
        (codes "root")
        (codes "secret")
        morning
        (ensure_admin clear_tokens shop auth_service (codes "root") (codes "secret") old_shop).1).0
      ≡ with_token root (sign_token clear_tokens auth_service root morning))
    × (root.role ≡ admin)
ensure_admin-login_example =
    ensure_admin-login clear_tokens shop auth_service (codes "root") (codes "secret") old_shop root
      root morning root_is_admin root_is_found
