-- ===== src/Tests/Shop.antt =====
-- A shop with all its tables in memory, a Redis server and a broker.
use go_order_lab.Prelude.{ℕ, ◌≡◌, refl, true, false, Option, none, List, [], ◌∷◌, Error, pos, codes}
use go_order_lab.Store.Rows.{Base, Columns}
use go_order_lab.Store.Memory.{Memory, memory, is_keyed}
use go_order_lab.Model.{
  user_columns, Product, product_columns, Address, address_columns, CartItem, cart_item_columns,
  Coupon, coupon_columns, UserCoupon, user_coupon_columns, Activity, activity_columns, Order,
  order_columns, order_item_columns, Payment, payment_columns, operation_log_columns, published,
  unused, OrderStatus, new_activity_order_key,
}
use go_order_lab.Env.{Env, Db, World}
use go_order_lab.Redis.Cache.{redis_cache}
use go_order_lab.Orders.Service.{OrderService}
use go_order_lab.Tests.Server.{server, empty_server}
use go_order_lab.Tests.Queue.{queues, empty_queues}

-- The connection's state says how COMMIT fails.
abbrev pub shop : Env
shop = record {
  users = memory user_columns;
  products = memory product_columns;
  addresses = memory address_columns;
  cart_items = memory cart_item_columns;
  coupons = memory coupon_columns;
  user_coupons = memory user_coupon_columns;
  activities = memory activity_columns;
  orders = memory order_columns;
  order_items = memory order_item_columns;
  payments = memory payment_columns;
  operation_logs = memory operation_log_columns;
  Session = Option Error;
  begin = λ s. none;
  commit = λ s. s;
  cache = redis_cache server;
  broker = queues;
}

-- A table at instant 500, whose next key is 100.
abbrev pub table : {R : Type 0} (c : Columns R) (rows : List R) → is_keyed c rows ≡ true → Memory c
table c rows keyed = record {
  content = rows;
  keyed = keyed;
  now = pos 500;
  next = 100;
  broken = false;
}

abbrev pub base_of : ℕ → Base
base_of k = record { id = k; created_at = pos 10; updated_at = pos 10 }

abbrev pub lamp : Product
lamp = record { base = base_of 1; name = codes "lamp"; price = pos 150; stock = pos 5 }

abbrev pub sale : Activity
sale = record {
  base = base_of 1;
  product_id = 1;
  name = codes "sale";
  price = pos 99;
  stock = pos 2;
  status = published;
  start_at = pos 0;
  end_at = pos 1000;
}

abbrev pub home : Address
home = record {
  base = base_of 3;
  user_id = 7;
  receiver = codes "a";
  phone = codes "1";
  province = codes "p";
  city = codes "c";
  detail = codes "d";
  is_default = true;
}

abbrev pub two_lamps : CartItem
two_lamps = record { base = base_of 4; user_id = 7; product_id = 1; quantity = pos 2 }

abbrev pub fifty_off : Coupon
fifty_off = record {
  base = base_of 5;
  title = codes "fifty off";
  threshold = pos 100;
  discount = pos 50;
  stock = pos 9;
  start_at = pos 0;
  end_at = pos 1000;
}

abbrev pub my_coupon : UserCoupon
my_coupon = record { base = base_of 6; user_id = 7; coupon_id = 5; status = unused }

-- An order of the sale by user 8, in any status.
abbrev pub old_order : OrderStatus → Order
old_order status = record {
  base = base_of 9;
  order_no = codes "AO9";
  request_id = codes "r9";
  user_id = 8;
  product_id = 1;
  activity_id = 1;
  activity_order_key = new_activity_order_key 8 1;
  address_id = 0;
  user_coupon_id = 0;
  original_amount = pos 99;
  discount_amount = pos 0;
  amount = pos 99;
  status = status;
}

abbrev pub old_payment : Payment
old_payment = record {
  base = base_of 11;
  transaction_no = codes "T1";
  order_no = codes "AO9";
  status = codes "SUCCESS";
}

abbrev pub shop_db : OrderStatus → Db shop
shop_db status = record {
  users = table user_columns [] refl;
  products = table product_columns (lamp ∷ []) refl;
  addresses = table address_columns (home ∷ []) refl;
  cart_items = table cart_item_columns (two_lamps ∷ []) refl;
  coupons = table coupon_columns (fifty_off ∷ []) refl;
  user_coupons = table user_coupon_columns (my_coupon ∷ []) refl;
  activities = table activity_columns (sale ∷ []) refl;
  orders = table order_columns (old_order status ∷ []) refl;
  order_items = table order_item_columns [] refl;
  payments = table payment_columns (old_payment ∷ []) refl;
  operation_logs = table operation_log_columns [] refl;
  session = none;
}

abbrev pub open_shop : OrderStatus → World shop
open_shop status = record {
  db = shop_db status;
  cache = empty_server;
  broker = empty_queues;
  tasks = [];
}

abbrev pub with_redis : OrderService
with_redis = record { redis_stock = true; rabbit = none; rabbit_max_retries = pos 3 }

abbrev pub without_redis : OrderService
without_redis = record { redis_stock = false; rabbit = none; rabbit_max_retries = pos 3 }
