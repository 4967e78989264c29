-- ===== src/Http/Answers.antt =====
-- What the handlers of internal/handler share: a service's result becomes a response.
use go_order_lab.Prelude.{
  ℕ, Option, none, some, List, Result, ok, err, Error, activity_not_found, activity_not_available,
  sold_out, duplicate_order, order_not_found, illegal_transition, canceled, deadline_exceeded,
  record_not_found, failure, Action, ℤ, Text, codes, parse_uint,
}
use go_order_lab.Floats.{Floats}
use go_order_lab.Model.{
  User, Product, Address, CartItem, Coupon, UserCoupon, Activity, Order, OperationLog, OrderStatus,
}
use go_order_lab.Env.{Env, World}
use go_order_lab.Orders.Service.{error_text}
use go_order_lab.Orders.Cancel.{CancelOrderResult}
use go_order_lab.Orders.Payment.{PaymentResult}
use go_order_lab.Orders.Compensate.{CompensationResult}
use go_order_lab.Orders.Reconcile.{StockReconcileResult}
use go_order_lab.Admin.{AdminOverview, AdminOrderList}
use go_order_lab.Metrics.{Store, inc_business_event}
use go_order_lab.Http.{Response, Context, Chain, write, error_response}
use go_order_lab.Http.RateLimit.{TokenBucketLimiter}

-- The `data` of a response.
pub data Payload : Type 0 where
  session : User → Text → Payload
  product : Product → Payload
  products : List Product → Payload
  activity : Activity → Payload
  activities : List Activity → Payload
  address : Address → Payload
  addresses : List Address → Payload
  cart_item : CartItem × Option Product → Payload
  cart_items : List (CartItem × Option Product) → Payload
  deleted : Payload
  coupon : Coupon → Payload
  coupons : List Coupon → Payload
  user_coupon : UserCoupon × Option Coupon → Payload
  user_coupons : List (UserCoupon × Option Coupon) → Payload
  accepted_order : (order_no : Text) (status : OrderStatus) (stock_left : ℤ) → Payload
  order : Order → Payload
  orders : List Order → Payload
  cancellation : CancelOrderResult → Payload
  expired_orders : ℕ → Payload
  compensation : CompensationResult → Payload
  reconciliation : StockReconcileResult → Payload
  payment : PaymentResult → Payload
  logs : List OperationLog → Payload
  overview : AdminOverview → Payload
  order_page : AdminOrderList → Payload

-- What the requests share: the services' state, the counters and the limiter of orders.
pub record App (E : Env) (R : Floats) : Type 0 where
  pub world : World E
  pub metrics : Store R
  pub limiter : TokenBucketLimiter R

-- The status of an error of the order service.
unfoldable pub order_error_status : Error → ℕ
order_error_status deadline_exceeded = 504
order_error_status canceled = 408
order_error_status activity_not_found = 404
order_error_status order_not_found = 404
order_error_status activity_not_available = 409
order_error_status sold_out = 409
order_error_status duplicate_order = 409
order_error_status illegal_transition = 409
order_error_status record_not_found = 400
order_error_status (failure t) = 400

-- Its name in the metrics.
unfoldable pub order_error_metric : Error → Text
order_error_metric activity_not_found = codes "activity_not_found"
order_error_metric order_not_found = codes "order_not_found"
order_error_metric activity_not_available = codes "activity_not_available"
order_error_metric sold_out = codes "sold_out"
order_error_metric duplicate_order = codes "duplicate_order"
order_error_metric illegal_transition = codes "illegal_transition"
order_error_metric _ = codes "error"

abbrev pub bad_request : Error → ℕ
bad_request e = 400

abbrev pub server_error : Error → ℕ
server_error e = 500

abbrev pub unauthorized : Error → ℕ
unauthorized e = 401

module _ (E : Env) (R : Floats) where
  abbrev pub Requests : Type 0
  Requests = Chain Payload (App E R)

  abbrev pub answer :
      {A : Type 0}
      → (Error → ℕ)
      → (A → Response Payload)
      → Result A
      → Context Payload
      → Context Payload
  answer status respond (ok a) c = write (respond a) c
  answer status respond (err e) c = write (error_response (status e) (error_text e)) c

  -- A call of a service that may change its state, and one that only reads it.
  abbrev pub call :
      {A : Type 0} → (Error → ℕ) → (A → Response Payload) → Action (World E) A → Requests
  call status respond m (c, a) =
      let (r, w) = m a.world in (answer status respond r c, record a { world = w })

  abbrev pub look :
      {A : Type 0} → (Error → ℕ) → (A → Response Payload) → (World E → Result A) → Requests
  look status respond f (c, a) = (answer status respond (f a.world) c, a)

  -- `c.ShouldBindJSON(&req)`
  abbrev pub with_body : {B : Type 0} → Result B → (B → Requests) → Requests
  with_body (ok b) handle m = handle b m
  with_body (err e) handle (c, a) = (write (error_response 400 (error_text e)) c, a)

  -- `strconv.ParseUint(c.Param("id"), 10, 64)`
  abbrev pub with_id : Text → Text → (ℕ → Requests) → Requests
  with_id message id handle (c, a) = elim (parse_uint id) [
    | some n ↦ handle n (c, a)
    | none ↦ (write (error_response 400 message) c, a)
  ]

  abbrev pub count_event : Text → Text → App E R → App E R
  count_event event result a = record a { metrics = inc_business_event R event result a.metrics }
