-- ===== src/Tests/Database.antt =====
-- The start on rows of an older version of the program: an order without its key, an activity without
-- a status and a user without a role.
use go_order_lab.Prelude.{◌≡◌, refl, none, [], ◌∷◌, ok, codes, Bool-cases}
use go_order_lab.Model.{
  User, user_columns, UserRole, Activity, activity_columns, unset, Order, order_columns, queued,
  new_activity_order_key,
}
use go_order_lab.Env.{World}
use go_order_lab.Database.{backfill_activity_order_keys, fill_statuses, fill_roles, fill_rows}
use go_order_lab.Database.Ready.{Ready, fill_rows-Ready}
use go_order_lab.Tests.Shop.{shop, open_shop, table, base_of, sale, old_order}

abbrev keyless_order : Order
keyless_order = record (old_order queued) { activity_order_key = none }

abbrev old_sale : Activity
old_sale = record sale { status = unset }

abbrev old_user : User
old_user = record {
  base = base_of 8;
  username = codes "ann123";
  password_hash = codes "h";
  role = UserRole.other [];
}

abbrev old_shop : World shop
old_shop = record (open_shop queued) {
  db = record ((open_shop queued).db) {
    users = table user_columns (old_user ∷ []) refl;
    activities = table activity_columns (old_sale ∷ []) refl;
    orders = table order_columns (keyless_order ∷ []) refl;
  };
}

old_shop_fills : (fill_rows shop old_shop).0 ≡ ok tt
unfolding fill_rows backfill_activity_order_keys fill_statuses fill_roles new_activity_order_key
    Bool-cases
old_shop_fills = refl

fill_rows-Ready_example : Ready shop (fill_rows shop old_shop).1.db
fill_rows-Ready_example = fill_rows-Ready shop old_shop ((λ full. absurd (cc)), tt) old_shop_fills
