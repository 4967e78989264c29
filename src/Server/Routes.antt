-- ===== src/Server/Routes.antt =====
-- The routes under /api of cmd/server/main.go, by the group that they are registered in.
use go_order_lab.Prelude.{Bool, Result, ℤ, Text}
use go_order_lab.Floats.{Floats}
use go_order_lab.Model.{ActivityStatus}
use go_order_lab.Env.{Env}
use go_order_lab.Users.Tokens.{Jwt}
use go_order_lab.Users.{AuthService, Clock}
use go_order_lab.Catalog.{CreateProductInput, CreateActivityInput}
use go_order_lab.Addresses.{CreateAddressInput}
use go_order_lab.Cart.{AddCartItemInput}
use go_order_lab.Coupons.{CreateCouponInput}
use go_order_lab.Orders.Service.{OrderService}
use go_order_lab.Orders.Create.{CreateOrderInput, Reads}
use go_order_lab.Orders.Checkout.{CheckoutCartInput, CheckoutReads}
use go_order_lab.Orders.Payment.{PaymentCallbackInput}
use go_order_lab.Orders.Compensate.{CompensateInput}
use go_order_lab.Orders.Reconcile.{StockReconcileInput}
use go_order_lab.Http.Answers.{Requests}
use go_order_lab.Handlers.Orders as OrderHandler
use go_order_lab.Handlers.Shop
use go_order_lab.Handlers.Shop.{AuthRequest, OrderParams}

-- What the server is built from.
pub record Services : Type 0 where
  pub auth : AuthService
  pub orders : OrderService
  pub rate_limit_enabled : Bool
  pub request_timeout : ℤ

-- A request with its path's and query's texts, its body and what its handler reads.
pub data OpenCall : Type 0 where
  register login : Result AuthRequest → Clock → OpenCall
  list_products list_activities list_coupons : OpenCall
  payment_callback : Result PaymentCallbackInput → OpenCall

pub data UserCall : Type 0 where
  create_address : Result CreateAddressInput → UserCall
  list_addresses : UserCall
  set_default : (id : Text) → UserCall
  add_item : Result AddCartItemInput → UserCall
  list_items : UserCall
  update_item : (id : Text) (quantity : Result ℤ) → UserCall
  delete_item : (id : Text) → UserCall
  claim_coupon : (id : Text) (now : ℤ) → UserCall
  my_coupons : UserCall
  create_order : Result CreateOrderInput → Reads → UserCall
  checkout_cart : Result CheckoutCartInput → CheckoutReads → UserCall
  list_orders : UserCall
  get_order cancel_order : (order_no : Text) → UserCall

pub data AdminCall : Type 0 where
  create_product : Result CreateProductInput → AdminCall
  create_activity : Result CreateActivityInput → (now until_now : ℤ) → AdminCall
  update_activity_status : (id : Text) → Result ActivityStatus → AdminCall
  create_coupon : Result CreateCouponInput → (now : ℤ) → AdminCall
  expire_orders : (timeout_seconds : Result ℤ) (now : ℤ) → AdminCall
  compensate : Result CompensateInput → (now : ℤ) → AdminCall
  reconcile_stock : Result StockReconcileInput → (now : ℤ) → AdminCall
  overview : AdminCall
  list_orders : OrderParams → AdminCall
  list_logs : AdminCall

module _ (E : Env) (R : Floats) (J : Jwt) (S : Services) where
  unfoldable pub handle_open : OpenCall → Requests E R
  handle_open (register body clock) = Shop.register E R J S.auth body clock
  handle_open (login body clock) = Shop.login E R J S.auth body clock
  handle_open list_products = Shop.list_products E R
  handle_open list_activities = Shop.list_activities E R
  handle_open list_coupons = Shop.list_coupons E R
  handle_open (payment_callback body) = OrderHandler.payment_callback E R S.orders body

module _ (E : Env) (R : Floats) (S : Services) where
  unfoldable pub handle_user : UserCall → Requests E R
  handle_user (create_address body) = Shop.create_address E R body
  handle_user list_addresses = Shop.list_addresses E R
  handle_user (set_default id) = Shop.set_default E R id
  handle_user (add_item body) = Shop.add_item E R body
  handle_user list_items = Shop.list_items E R
  handle_user (update_item id quantity) = Shop.update_item E R id quantity
  handle_user (delete_item id) = Shop.delete_item E R id
  handle_user (claim_coupon id now) = Shop.claim_coupon E R id now
  handle_user my_coupons = Shop.my_coupons E R
  handle_user (create_order body reads) = OrderHandler.create_order E R S.orders body reads
  handle_user (checkout_cart body reads) = OrderHandler.checkout_cart E R S.orders body reads
  handle_user UserCall.list_orders = OrderHandler.list_orders E R S.orders
  handle_user (get_order order_no) = OrderHandler.get_order E R S.orders order_no
  handle_user (cancel_order order_no) = OrderHandler.cancel_order E R S.orders order_no

  unfoldable pub handle_admin : AdminCall → Requests E R
  handle_admin (create_product body) = Shop.create_product E R body
  handle_admin (create_activity body now until_now) =
      Shop.create_activity E R S.orders.redis_stock body now until_now
  handle_admin (update_activity_status id body) = Shop.update_activity_status E R id body
  handle_admin (create_coupon body now) = Shop.create_coupon E R body now
  handle_admin (expire_orders timeout_seconds now) =
      OrderHandler.expire_orders E R S.orders timeout_seconds now
  handle_admin (compensate body now) = OrderHandler.compensate E R S.orders body now
  handle_admin (reconcile_stock body now) = OrderHandler.reconcile_stock E R S.orders body now
  handle_admin overview = Shop.show_overview E R
  handle_admin (AdminCall.list_orders params) = Shop.list_orders E R params
  handle_admin list_logs = OrderHandler.list_logs E R S.orders
