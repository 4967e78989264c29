-- ===== src/Tests/Users.antt =====
-- The theorems on coupons and carts at a concrete shop.
use go_order_lab.Prelude.{◌≡◌, refl, pos, ◌+ℤ◌, arith}
use go_order_lab.Store.Sums.{sum_by}
use go_order_lab.Model.{wait_pay}
use go_order_lab.Coupons.{claim}
use go_order_lab.Coupons.Account.{Issued, claim-Issued}
use go_order_lab.Cart.{AddCartItemInput}
use go_order_lab.Cart.Owners.{others, adds, serve_cart, serve_cart-others}
use go_order_lab.Tests.Shop.{shop, open_shop}

-- Ten coupons were issued, and user 7 has one.
open_shop-Issued : Issued shop 5 (pos 10) (open_shop wait_pay).db
unfolding sum_by ◌+ℤ◌
open_shop-Issued = record { in_stock = omega arith; accounted = refl }

claim-Issued_example : Issued shop 5 (pos 10) (claim shop 8 5 (pos 20) (open_shop wait_pay)).1.db
claim-Issued_example =
    claim-Issued shop 5 (pos 10) (omega arith, omega arith) 8 5 (pos 20) (open_shop wait_pay)
      open_shop-Issued

abbrev lamps : AddCartItemInput
lamps = record { product_id = 1; quantity = pos 1 }

serve_cart-others_example :
    others 8
      (shop.cart_items.rows (serve_cart shop 8 (adds lamps) (open_shop wait_pay)).db.cart_items)
    ≡ others 8 (shop.cart_items.rows (open_shop wait_pay).db.cart_items)
serve_cart-others_example = serve_cart-others shop 8 (adds lamps) (open_shop wait_pay)
