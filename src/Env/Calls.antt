-- ===== src/Env/Calls.antt =====
-- The calls on each table as actions on the shared state.
use go_order_lab.Prelude.{
  ℕ, List, [], ◌∷◌, Result, ok, err, Error, Action, execute, pure, ◌>>◌, Text,
}
use go_order_lab.Model.{
  Product, CartItem, UserCoupon, Activity, Order, OrderItem, Payment, OperationLog, Address, User,
  no_base,
}
use go_order_lab.Env.State.{Env, World}

abbrev pub log_row : Text → Text → ℕ → Text → Text → OperationLog
log_row action order_no user_id result message = record {
  base = no_base;
  action = action;
  order_no = order_no;
  user_id = user_id;
  result = result;
  message = message;
}

module _ (E : Env) where
  abbrev pub put_users : E.users.State → World E → World E
  put_users s w = record w { db = record (w.db) { users = s } }

  abbrev pub put_products : E.products.State → World E → World E
  put_products s w = record w { db = record (w.db) { products = s } }

  abbrev pub put_addresses : E.addresses.State → World E → World E
  put_addresses s w = record w { db = record (w.db) { addresses = s } }

  abbrev pub put_cart_items : E.cart_items.State → World E → World E
  put_cart_items s w = record w { db = record (w.db) { cart_items = s } }

  abbrev pub put_coupons : E.coupons.State → World E → World E
  put_coupons s w = record w { db = record (w.db) { coupons = s } }

  abbrev pub put_user_coupons : E.user_coupons.State → World E → World E
  put_user_coupons s w = record w { db = record (w.db) { user_coupons = s } }

  abbrev pub put_activities : E.activities.State → World E → World E
  put_activities s w = record w { db = record (w.db) { activities = s } }

  abbrev pub put_orders : E.orders.State → World E → World E
  put_orders s w = record w { db = record (w.db) { orders = s } }

  abbrev pub put_order_items : E.order_items.State → World E → World E
  put_order_items s w = record w { db = record (w.db) { order_items = s } }

  abbrev pub put_payments : E.payments.State → World E → World E
  put_payments s w = record w { db = record (w.db) { payments = s } }

  abbrev pub put_operation_logs : E.operation_logs.State → World E → World E
  put_operation_logs s w = record w { db = record (w.db) { operation_logs = s } }

  abbrev pub save_user : User → Action (World E) (Unit {0})
  save_user r = execute (λ w. E.users.save r w.db.users) put_users

  abbrev pub create_user : User → Action (World E) User
  create_user r = execute (λ w. E.users.create r w.db.users) put_users

  abbrev pub save_product : Product → Action (World E) (Unit {0})
  save_product r = execute (λ w. E.products.save r w.db.products) put_products

  abbrev pub create_product : Product → Action (World E) Product
  create_product r = execute (λ w. E.products.create r w.db.products) put_products

  abbrev pub save_address : Address → Action (World E) (Unit {0})
  save_address r = execute (λ w. E.addresses.save r w.db.addresses) put_addresses

  abbrev pub create_address : Address → Action (World E) Address
  create_address r = execute (λ w. E.addresses.create r w.db.addresses) put_addresses

  abbrev pub save_cart_item : CartItem → Action (World E) (Unit {0})
  save_cart_item r = execute (λ w. E.cart_items.save r w.db.cart_items) put_cart_items

  abbrev pub create_cart_item : CartItem → Action (World E) CartItem
  create_cart_item r = execute (λ w. E.cart_items.create r w.db.cart_items) put_cart_items

  abbrev pub save_user_coupon : UserCoupon → Action (World E) (Unit {0})
  save_user_coupon r = execute (λ w. E.user_coupons.save r w.db.user_coupons) put_user_coupons

  abbrev pub create_user_coupon : UserCoupon → Action (World E) UserCoupon
  create_user_coupon r = execute (λ w. E.user_coupons.create r w.db.user_coupons) put_user_coupons

  abbrev pub save_activity : Activity → Action (World E) (Unit {0})
  save_activity r = execute (λ w. E.activities.save r w.db.activities) put_activities

  abbrev pub create_activity : Activity → Action (World E) Activity
  create_activity r = execute (λ w. E.activities.create r w.db.activities) put_activities

  abbrev pub save_order : Order → Action (World E) (Unit {0})
  save_order r = execute (λ w. E.orders.save r w.db.orders) put_orders

  abbrev pub create_order : Order → Action (World E) Order
  create_order r = execute (λ w. E.orders.create r w.db.orders) put_orders

  abbrev pub create_order_item : OrderItem → Action (World E) OrderItem
  create_order_item r = execute (λ w. E.order_items.create r w.db.order_items) put_order_items

  abbrev pub create_payment : Payment → Action (World E) Payment
  create_payment r = execute (λ w. E.payments.create r w.db.payments) put_payments

  -- `s.log`: a failure to write the log is ignored.
  unfoldable pub log : Text → Text → ℕ → Text → Text → World E → World E
  log action order_no user_id result message w =
      elim (E.operation_logs.create (log_row action order_no user_id result message)
        w.db.operation_logs) [ ok (_, s) ↦ put_operation_logs s w | err _ ↦ w ]

-- `for _, item := range items { if err := f(item); err != nil { return err } }`
abbrev pub for_each : {S A : Type 0} → (A → Action S (Unit {0})) → List A → Action S (Unit {0})
for_each f [] = pure tt
for_each f (x ∷ xs) = f x >> for_each f xs

-- The log lines behind a transaction, and the result passed on.
abbrev pub report : {S A : Type 0} → (Error → S → S) → (A → S → S) → Result A × S → Result A × S
report on_error on_ok (ok a, s) = (ok a, on_ok a s)
report on_error on_ok (err e, s) = (err e, on_error e s)
