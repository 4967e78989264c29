-- ===== src/Handlers/Shop.antt =====
-- The other handlers of internal/handler: auth.go, catalog.go, address.go, cart.go, coupon.go, admin.go.
use go_order_lab.Prelude.{
  ℕ, Bool, none, some, Result, ℤ, pos, Text, codes, text_eq, [], parse_uint, atoi, if◌then◌else◌,
}
use go_order_lab.Floats.{Floats}
use go_order_lab.Model.{
  User, ActivityStatus, OrderStatus, queued, wait_pay, paid, cancelled, closed,
}
use go_order_lab.Env.{Env}
use go_order_lab.Users.Tokens.{Jwt}
use go_order_lab.Users
use go_order_lab.Users.{AuthService, Clock}
use go_order_lab.Catalog
use go_order_lab.Catalog.{CreateProductInput, CreateActivityInput}
use go_order_lab.Addresses
use go_order_lab.Addresses.{CreateAddressInput}
use go_order_lab.Cart
use go_order_lab.Cart.{AddCartItemInput}
use go_order_lab.Coupons
use go_order_lab.Coupons.{CreateCouponInput}
use go_order_lab.Admin
use go_order_lab.Admin.{AdminOrderQuery}
use go_order_lab.Orders.Service.{error_text}
use go_order_lab.Http.{ok_response, created_response}
use go_order_lab.Http.Auth.{user_id_of}
use go_order_lab.Http.Answers.{
  Payload, session, product, products, activity, activities, address, addresses, cart_item,
  cart_items, deleted, coupon, coupons, user_coupon, user_coupons, overview, order_page,
  bad_request, server_error, unauthorized, Requests, call, look, with_body, with_id,
}

-- `authRequest`
pub record AuthRequest : Type 0 where
  pub username : Text
  pub password : Text

-- The texts of the query string; a parameter that is left out is the empty text.
pub record OrderParams : Type 0 where
  pub status : Text
  pub user_id : Text
  pub activity_id : Text
  pub limit : Text

-- The status that a text of the column stands for.
abbrev pub order_status_of : Text → OrderStatus
order_status_of s =
    if text_eq s (codes "QUEUED")
    then queued
    else if text_eq s (codes "WAIT_PAY")
    then wait_pay
    else if text_eq s (codes "PAID")
    then paid
    else if text_eq s (codes "CANCELLED")
    then cancelled
    else if text_eq s (codes "CLOSED")
    then closed
    else OrderStatus.other s

abbrev pub session_of : User × Text → Payload
session_of (user, token) = session user token

unfoldable pub parse_uint_query : Text → ℕ
parse_uint_query value =
    if text_eq value [] then 0 else elim (parse_uint value) [ some n ↦ n | none ↦ 0 ]

unfoldable pub parse_int_query : Text → ℤ
parse_int_query value =
    if text_eq value [] then pos 0 else elim (atoi value) [ some n ↦ n | none ↦ pos 0 ]

module _ (E : Env) (R : Floats) where
  unfoldable pub register : Jwt → AuthService → Result AuthRequest → Clock → Requests E R
  unfolding error_text
  register J S body clock = with_body E R body (λ req.
      call E R bad_request (λ x. created_response (session_of x))
        (Users.register J E S req.username req.password clock))

  unfoldable pub login : Jwt → AuthService → Result AuthRequest → Clock → Requests E R
  unfolding error_text
  login J S body clock = with_body E R body (λ req.
      call E R unauthorized (λ x. ok_response (session_of x))
        (Users.login J E S req.username req.password clock))

  unfoldable pub create_product : Result CreateProductInput → Requests E R
  unfolding error_text
  create_product body = with_body E R body (λ req.
      call E R bad_request (λ x. created_response (product x)) (Catalog.create_product E req))

  unfoldable pub list_products : Requests E R
  unfolding error_text
  list_products = look E R server_error (λ xs. ok_response (products xs)) (Catalog.list_products E)

  unfoldable pub create_activity : Bool → Result CreateActivityInput → ℤ → ℤ → Requests E R
  unfolding error_text
  create_activity redis_stock body now until_now = with_body E R body (λ req.
      call E R bad_request (λ x. created_response (activity x))
        (Catalog.create_activity E redis_stock req now until_now))

  unfoldable pub list_activities : Requests E R
  unfolding error_text
  list_activities =
      look E R server_error (λ xs. ok_response (activities xs)) (Catalog.list_activities E)

  unfoldable pub update_activity_status : Text → Result ActivityStatus → Requests E R
  unfolding error_text
  update_activity_status id body = with_id E R (codes "invalid activity id") id (λ activity_id.
      with_body E R body (λ status.
        call E R bad_request (λ x. ok_response (activity x))
          (Catalog.update_activity_status E activity_id status)))

  unfoldable pub create_address : Result CreateAddressInput → Requests E R
  unfolding error_text user_id_of
  create_address body = with_body E R body (λ req (c, a).
      call E R bad_request (λ x. created_response (address x))
        (Addresses.create E (user_id_of c) req) (c, a))

  unfoldable pub list_addresses : Requests E R
  unfolding error_text user_id_of
  list_addresses (c, a) =
      look E R server_error (λ xs. ok_response (addresses xs)) (Addresses.list E (user_id_of c))
        (c, a)

  unfoldable pub set_default : Text → Requests E R
  unfolding error_text user_id_of
  set_default id = with_id E R (codes "invalid address id") id (λ address_id (c, a).
      call E R bad_request (λ x. ok_response (address x))
        (Addresses.set_default E (user_id_of c) address_id) (c, a))

  unfoldable pub add_item : Result AddCartItemInput → Requests E R
  unfolding error_text user_id_of
  add_item body = with_body E R body (λ req (c, a).
      call E R bad_request (λ x. created_response (cart_item x))
        (Cart.add_item E (user_id_of c) req) (c, a))

  unfoldable pub list_items : Requests E R
  unfolding error_text user_id_of
  list_items (c, a) =
      look E R server_error (λ xs. ok_response (cart_items xs)) (Cart.list E (user_id_of c)) (c, a)

  -- The body is the quantity.
  unfoldable pub update_item : Text → Result ℤ → Requests E R
  unfolding error_text user_id_of
  update_item id body = with_id E R (codes "invalid cart item id") id (λ item_id.
      with_body E R body (λ quantity (c, a).
        call E R bad_request (λ x. ok_response (cart_item x))
          (Cart.update_quantity E (user_id_of c) item_id quantity) (c, a)))

  unfoldable pub delete_item : Text → Requests E R
  unfolding error_text user_id_of
  delete_item id = with_id E R (codes "invalid cart item id") id (λ item_id (c, a).
      call E R bad_request (λ _. ok_response deleted) (Cart.delete_item E (user_id_of c) item_id)
        (c, a))

  unfoldable pub create_coupon : Result CreateCouponInput → ℤ → Requests E R
  unfolding error_text
  create_coupon body now =
      with_body E R body
        (λ req. call E R bad_request (λ x. created_response (coupon x)) (Coupons.create E req now))

  unfoldable pub list_coupons : Requests E R
  unfolding error_text
  list_coupons = look E R server_error (λ xs. ok_response (coupons xs)) (Coupons.list E)

  unfoldable pub claim_coupon : Text → ℤ → Requests E R
  unfolding error_text user_id_of
  claim_coupon id now = with_id E R (codes "invalid coupon id") id (λ coupon_id (c, a).
      call E R bad_request (λ x. created_response (user_coupon x))
        (Coupons.claim E (user_id_of c) coupon_id now) (c, a))

  unfoldable pub my_coupons : Requests E R
  unfolding error_text user_id_of
  my_coupons (c, a) =
      look E R server_error (λ xs. ok_response (user_coupons xs))
        (Coupons.my_coupons E (user_id_of c)) (c, a)

  unfoldable pub show_overview : Requests E R
  unfolding error_text
  show_overview = call E R server_error (λ x. ok_response (overview x)) (Admin.overview E)

  unfoldable pub list_orders : OrderParams → Requests E R
  unfolding error_text parse_uint_query parse_int_query
  list_orders params =
      call E R server_error (λ x. ok_response (order_page x))
        (Admin.list_orders E (record {
          status = if text_eq params.status [] then none else some (order_status_of params.status);
          user_id = parse_uint_query params.user_id;
          activity_id = parse_uint_query params.activity_id;
          limit = parse_int_query params.limit;
        }))
