-- ===== src/Orders/Service.antt =====
-- The fields and small functions of internal/service/order.go that its operations share.
use go_order_lab.Prelude.{
  suc, ◌+◌, Bool, true, false, not, ◌&&◌, ◌||◌, Option, [], ◌∷◌, Result, ok, err, Error,
  activity_not_found, activity_not_available, sold_out, duplicate_order, order_not_found,
  illegal_transition, canceled, deadline_exceeded, record_not_found, failure, ℤ, pos, negsuc, ltb_ℤ,
  ◌+ℤ◌, ◌-ℤ◌, ◌*ℤ◌, wrap64, Text, codes, decimal, ◌==◌, leb, if◌then◌else◌,
}
use go_order_lab.Model.{Activity, is_published}

-- `OrderService`, without its database: whether it has a stock cache and a queue.
pub record OrderService : Type 0 where
  pub redis_stock : Bool
  pub rabbit : Option Text
  pub rabbit_max_retries : ℤ

-- `err.Error()`
unfoldable pub error_text : Error → Text
error_text activity_not_found = codes "activity not found"
error_text activity_not_available = codes "activity is not available"
error_text sold_out = codes "activity sold out"
error_text duplicate_order = codes "user already has an order for this activity"
error_text order_not_found = codes "order not found"
error_text illegal_transition = codes "illegal order status transition"
error_text canceled = codes "context canceled"
error_text deadline_exceeded = codes "context deadline exceeded"
error_text record_not_found = codes "record not found"
error_text (failure t) = t

-- `%d` of an `int`
unfoldable pub print_int : ℤ → Text
print_int (pos n) = decimal n
print_int (negsuc n) = b'-' ∷ decimal (suc n)

abbrev pub success : Text
success = codes "success"

abbrev pub failed : Text
failed = codes "failed"

unfoldable pub ensure_activity_orderable : Activity → ℤ → Result (Unit {0})
ensure_activity_orderable activity now =
    if not (is_published activity.status)
    then err activity_not_available
    else if ltb_ℤ now activity.start_at || ltb_ℤ activity.end_at now
    then err activity_not_available
    else ok tt

-- `strings.ToLower` on ASCII.
to_lower : Text → Text
to_lower [] = []
to_lower (c ∷ s) = (if leb b'A' c && leb c b'Z' then c + 32 else c) ∷ to_lower s

starts_with : Text → Text → Bool
starts_with s [] = true
starts_with [] (c ∷ p) = false
starts_with (d ∷ s) (c ∷ p) = d == c && starts_with s p

-- `strings.Contains`
contains : Text → Text → Bool
unfolding starts_with
contains [] p = starts_with [] p
contains (c ∷ s) p = starts_with (c ∷ s) p || contains s p

unfoldable pub is_activity_order_unique_conflict : Error → Bool
unfolding error_text to_lower contains
is_activity_order_unique_conflict e =
    let text = to_lower (error_text e) in
    contains text (codes "activity_order_key")
    || contains text (codes "idx_orders_activity_order_key")

-- `time.Duration(n) * time.Second`, in nanoseconds.
unfoldable pub seconds : ℤ → ℤ
seconds n = wrap64 (wrap64 n *ℤ pos 1_000_000_000)

-- `now.Add(-d)`
abbrev pub before : ℤ → ℤ → ℤ
before now d = now +ℤ wrap64 (pos 0 -ℤ d)

-- A timeout below 0 is read as 0.
abbrev pub or_zero : ℤ → ℤ
or_zero n = if ltb_ℤ n (pos 0) then pos 0 else n
