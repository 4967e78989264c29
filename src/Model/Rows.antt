-- ===== src/Model/Rows.antt =====
-- The rows of internal/model/model.go. IDs are `uint`; amounts, stocks and quantities `int64` or
-- `int`; an instant is in nanoseconds. The associations (`Product`, `Coupon`) are read by a
-- second query, and are no columns.
use go_order_lab.Prelude.{
  ℕ, Bool, false, ◌&&◌, ◌||◌, Option, some, ℤ, pos, Text, text_eq, ◌==◌, refl,
}
use go_order_lab.Store.Rows.{Base, Columns}
use go_order_lab.Model.Status.{OrderStatus, ActivityStatus, UserCouponStatus, UserRole}

-- The managed columns of a row that is not stored yet.
abbrev pub no_base : Base
no_base = record { id = 0; created_at = pos 0; updated_at = pos 0 }

-- NULL differs from every key.
abbrev pub key_eq : Option Text → Option Text → Bool
key_eq (some a) (some b) = text_eq a b
key_eq _ _ = false

pub record User : Type 0 where
  pub base : Base
  pub open base use *
  pub username : Text
  pub password_hash : Text
  pub role : UserRole

abbrev pub user_columns : Columns User
user_columns = record {
  base = λ r. r.base;
  set_base = λ b r. record r { base = b };
  conflict = λ r x. text_eq r.username x.username;
  base-set_base = λ b r. refl;
}

pub record Product : Type 0 where
  pub base : Base
  pub open base use *
  pub name : Text
  pub price : ℤ
  pub stock : ℤ

abbrev pub product_columns : Columns Product
product_columns = record {
  base = λ r. r.base;
  set_base = λ b r. record r { base = b };
  conflict = λ r x. false;
  base-set_base = λ b r. refl;
}

pub record Address : Type 0 where
  pub base : Base
  pub open base use *
  pub user_id : ℕ
  pub receiver : Text
  pub phone : Text
  pub province : Text
  pub city : Text
  pub detail : Text
  pub is_default : Bool

abbrev pub address_columns : Columns Address
address_columns = record {
  base = λ r. r.base;
  set_base = λ b r. record r { base = b };
  conflict = λ r x. false;
  base-set_base = λ b r. refl;
}

pub record CartItem : Type 0 where
  pub base : Base
  pub open base use *
  pub user_id : ℕ
  pub product_id : ℕ
  pub quantity : ℤ

abbrev pub cart_item_columns : Columns CartItem
cart_item_columns = record {
  base = λ r. r.base;
  set_base = λ b r. record r { base = b };
  conflict = λ r x. r.user_id == x.user_id && r.product_id == x.product_id;
  base-set_base = λ b r. refl;
}

pub record Coupon : Type 0 where
  pub base : Base
  pub open base use *
  pub title : Text
  pub threshold : ℤ
  pub discount : ℤ
  pub stock : ℤ
  pub start_at : ℤ
  pub end_at : ℤ

abbrev pub coupon_columns : Columns Coupon
coupon_columns = record {
  base = λ r. r.base;
  set_base = λ b r. record r { base = b };
  conflict = λ r x. false;
  base-set_base = λ b r. refl;
}

pub record UserCoupon : Type 0 where
  pub base : Base
  pub open base use *
  pub user_id : ℕ
  pub coupon_id : ℕ
  pub status : UserCouponStatus

abbrev pub user_coupon_columns : Columns UserCoupon
user_coupon_columns = record {
  base = λ r. r.base;
  set_base = λ b r. record r { base = b };
  conflict = λ r x. r.user_id == x.user_id && r.coupon_id == x.coupon_id;
  base-set_base = λ b r. refl;
}

pub record Activity : Type 0 where
  pub base : Base
  pub open base use *
  pub product_id : ℕ
  pub name : Text
  pub price : ℤ
  pub stock : ℤ
  pub status : ActivityStatus
  pub start_at : ℤ
  pub end_at : ℤ

abbrev pub activity_columns : Columns Activity
activity_columns = record {
  base = λ r. r.base;
  set_base = λ b r. record r { base = b };
  conflict = λ r x. false;
  base-set_base = λ b r. refl;
}

pub record Order : Type 0 where
  pub base : Base
  pub open base use *
  pub order_no : Text
  pub request_id : Text
  pub user_id : ℕ
  pub product_id : ℕ
  pub activity_id : ℕ
  pub activity_order_key : Option Text
  pub address_id : ℕ
  pub user_coupon_id : ℕ
  pub original_amount : ℤ
  pub discount_amount : ℤ
  pub amount : ℤ
  pub status : OrderStatus

abbrev pub order_columns : Columns Order
order_columns = record {
  base = λ r. r.base;
  set_base = λ b r. record r { base = b };
  conflict =
      λ r x. text_eq r.order_no x.order_no || key_eq r.activity_order_key x.activity_order_key;
  base-set_base = λ b r. refl;
}

pub record OrderItem : Type 0 where
  pub base : Base
  pub open base use *
  pub order_id : ℕ
  pub order_no : Text
  pub product_id : ℕ
  pub product_name : Text
  pub price : ℤ
  pub quantity : ℤ

abbrev pub order_item_columns : Columns OrderItem
order_item_columns = record {
  base = λ r. r.base;
  set_base = λ b r. record r { base = b };
  conflict = λ r x. false;
  base-set_base = λ b r. refl;
}

pub record Payment : Type 0 where
  pub base : Base
  pub open base use *
  pub transaction_no : Text
  pub order_no : Text
  pub status : Text

abbrev pub payment_columns : Columns Payment
payment_columns = record {
  base = λ r. r.base;
  set_base = λ b r. record r { base = b };
  conflict = λ r x. text_eq r.transaction_no x.transaction_no;
  base-set_base = λ b r. refl;
}

pub record OperationLog : Type 0 where
  pub base : Base
  pub open base use *
  pub action : Text
  pub order_no : Text
  pub user_id : ℕ
  pub result : Text
  pub message : Text

abbrev pub operation_log_columns : Columns OperationLog
operation_log_columns = record {
  base = λ r. r.base;
  set_base = λ b r. record r { base = b };
  conflict = λ r x. false;
  base-set_base = λ b r. refl;
}
