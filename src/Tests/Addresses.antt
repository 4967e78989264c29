-- ===== src/Tests/Addresses.antt =====
-- The theorems on the default addresses at a concrete shop.
use go_order_lab.Prelude.{◌≡◌, refl, true, ok, codes, arith, [], ◌∷◌, Bool-cases, pos}
use go_order_lab.Store.Rows.{select, stamp}
use go_order_lab.Model.{Address, address_columns, wait_pay}
use go_order_lab.Addresses.{
  CreateAddressInput, create, set_default, set_default_tx, create_tx, clear_default, save_default,
}
use go_order_lab.Addresses.Rows.{default_of}
use go_order_lab.Addresses.Created.{create-OneDefault}
use go_order_lab.Addresses.Default.{OneDefault, set_default-only}
use go_order_lab.Env.{World}
use go_order_lab.Tests.Shop.{shop, open_shop, home}

open_shop-OneDefault : OneDefault shop (open_shop wait_pay).db
open_shop-OneDefault v = ground arith

abbrev office : CreateAddressInput
office = record {
  receiver = codes "b";
  phone = codes "2";
  province = codes "p";
  city = codes "c";
  detail = codes "e";
  is_default = true;
}

create-OneDefault_example : OneDefault shop (create shop 7 office (open_shop wait_pay)).1.db
create-OneDefault_example =
    create-OneDefault shop 7 office (open_shop wait_pay) open_shop-OneDefault

abbrev moved : World shop
moved = (create shop 7 office (open_shop wait_pay)).1

-- The office has taken the place of the home.
moved-OneDefault : OneDefault shop moved.db
moved-OneDefault = create-OneDefault shop 7 office (open_shop wait_pay) open_shop-OneDefault

abbrev back : Address
back = stamp address_columns (pos 500) home

goes_back : (set_default shop 7 3 moved).0 ≡ ok back
unfolding create set_default Bool-cases set_default_tx create_tx clear_default save_default
goes_back = refl

set_default-only_example :
    select (default_of 7) (shop.addresses.rows (set_default shop 7 3 moved).1.db.addresses)
    ≡ back ∷ []
set_default-only_example = set_default-only shop 7 3 moved back goes_back moved-OneDefault
