-- ===== src/Model/Status.antt =====
-- The status columns of internal/model/model.go. The columns are strings: `other` is any string
-- that is none of the constants, and `unset` the empty one.
use go_order_lab.Prelude.{Bool, true, false, Text}

pub data OrderStatus : Type 0 where
  queued wait_pay paid cancelled closed : OrderStatus
  other : Text → OrderStatus

pub data ActivityStatus : Type 0 where
  published offline ended unset : ActivityStatus
  other : Text → ActivityStatus

pub data UserCouponStatus : Type 0 where
  unused used expired : UserCouponStatus
  other : Text → UserCouponStatus

pub data UserRole : Type 0 where
  user admin : UserRole
  other : Text → UserRole

abbrev pub is_queued : OrderStatus → Bool
is_queued queued = true
is_queued _ = false

abbrev pub is_wait_pay : OrderStatus → Bool
is_wait_pay wait_pay = true
is_wait_pay _ = false

-- The two statuses in which an order may still be cancelled or closed.
abbrev pub is_open : OrderStatus → Bool
is_open queued = true
is_open wait_pay = true
is_open _ = false

abbrev pub is_unused : UserCouponStatus → Bool
is_unused unused = true
is_unused _ = false

-- `status = 'PUBLISHED' OR status = ''`
abbrev pub is_published : ActivityStatus → Bool
is_published published = true
is_published unset = true
is_published _ = false

unfoldable pub is_valid_user_role : UserRole → Bool
is_valid_user_role user = true
is_valid_user_role admin = true
is_valid_user_role _ = false

unfoldable pub is_valid_activity_status : ActivityStatus → Bool
is_valid_activity_status published = true
is_valid_activity_status offline = true
is_valid_activity_status ended = true
is_valid_activity_status _ = false
