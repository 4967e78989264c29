-- ===== src/Pressure/Batches.antt =====
-- The batches of the valid orders in `execute` of cmd/pressure/main.go.
use go_order_lab.Prelude.{
  suc, ◌/◌, ◌%◌, Bool, ◌||◌, ℤ, pos, negsuc, leb_ℤ, ltb_ℤ, ◌+ℤ◌, ◌-ℤ◌, ◌*ℤ◌, wrap64, if◌then◌else◌,
}

-- The flags that are numbers.
pub record Flags : Type 0 where
  pub workers : ℤ
  pub users : ℤ
  pub stock : ℤ
  pub duplicates : ℤ
  pub writes : ℤ
  pub duration : ℤ

-- The flags that the program refuses.
unfoldable pub is_invalid : Flags → Bool
is_invalid f =
    ltb_ℤ f.workers (pos 1)
    || ltb_ℤ f.users (pos 1)
    || ltb_ℤ (pos 5000) f.users
    || ltb_ℤ f.stock (pos 1)
    || ltb_ℤ (pos 100) f.stock
    || ltb_ℤ f.users f.stock
    || ltb_ℤ f.duplicates (pos 1)
    || ltb_ℤ f.writes (pos 0)
    || leb_ℤ f.duration (pos 0)

abbrev pub minimum : ℤ → ℤ → ℤ
minimum a b = if leb_ℤ a b then a else b

-- `a / b` and `a % b`, towards 0, for a divisor that is positive.
unfoldable pub quotient : ℤ → ℤ → ℤ
quotient (pos m) (pos n) = pos (m / n)
quotient (negsuc m) (pos n) = pos 0 -ℤ pos (suc m / n)
quotient a (negsuc n) = pos 0

unfoldable pub remainder : ℤ → ℤ → ℤ
remainder (pos m) (pos n) = pos (m % n)
remainder (negsuc m) (pos n) = pos 0 -ℤ pos (suc m % n)
remainder a (negsuc n) = a

unfoldable pub batch_size : ℤ → ℤ
batch_size users = minimum users (pos 100)

-- The length of the list of the activities; `make` panics where it is negative.
unfoldable pub batch_count : ℤ → ℤ → ℤ
unfolding batch_size quotient
batch_count users writes =
    quotient (wrap64 (wrap64 (writes +ℤ batch_size users) -ℤ pos 1)) (batch_size users)

-- The stock of the activity of a batch.
unfoldable pub batch_stock : ℤ → ℤ → ℤ → ℤ
unfolding batch_size
batch_stock users writes batch =
    minimum (batch_size users) (wrap64 (writes -ℤ wrap64 (batch *ℤ batch_size users)))

-- The places of a call's activity and of its user's token.
unfoldable pub batch_of : ℤ → ℤ → ℤ
unfolding batch_size quotient
batch_of users i = quotient i (batch_size users)

unfoldable pub user_of : ℤ → ℤ → ℤ
unfolding batch_size remainder
user_of users i = remainder i (batch_size users)
