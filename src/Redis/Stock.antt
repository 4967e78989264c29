-- ===== src/Redis/Stock.antt =====
-- `RedisStockStore` of internal/service/redis_stock.go: its operations on the server.
use go_order_lab.Prelude.{
  ℕ, ◌/◌, Bool, true, false, Option, none, some, List, [], ◌∷◌, ◌++◌, Result, ok, err, Error,
  failure, duplicate_order, sold_out, ℤ, pos, negsuc, pos_part, ltb_ℤ, eq_ℤ, ◌+ℤ◌, ◌-ℤ◌, ◌<ℤ◌,
  wrap64, codes, decimal, if◌then◌else◌, arith, ◌^◌, ◌-◌,
}
use go_order_lab.Model.{Activity}
use go_order_lab.Orders.Service.{print_int}
use go_order_lab.Redis.Commands.{Redis, Value, number, unreadable}
use go_order_lab.Redis.Keys.{stock_key, users_key}
use go_order_lab.Redis.Scripts.{reserve_script, release_script}

abbrev pub hour : ℤ
hour = pos 3_600_000_000_000

-- `time.Until(endAt)`, which stops at the ends of the range.
unfoldable pub until : ℤ → ℤ → ℤ
until now end_at =
    let d = end_at -ℤ now in
    if ltb_ℤ (pos (2 ^ 63 - 1)) d
    then pos (2 ^ 63 - 1)
    else if ltb_ℤ d (negsuc (2 ^ 63 - 1))
    then negsuc (2 ^ 63 - 1)
    else d

-- In whole seconds; the rounding of `Seconds()`, a float, is left out.
unfoldable pub reserve_ttl : ℤ → ℤ → ℤ
unfolding until
reserve_ttl now end_at =
    let ttl = wrap64 (until now end_at +ℤ hour) in
    if ltb_ℤ ttl hour then pos 3_600 else pos (pos_part ttl / 1_000_000_000)

-- The time to live is positive, whatever the end of the activity is.
pub reserve_ttl_pos : (now end_at : ℤ) → pos 0 <ℤ reserve_ttl now end_at
unfolding reserve_ttl
reserve_ttl_pos now end_at = ground arith

-- What `Reserve` makes of the script's reply.
unfoldable pub interpret : List ℤ → Result ℤ
interpret (code ∷ stock_left ∷ []) =
    if eq_ℤ code (pos 0)
    then ok stock_left
    else if eq_ℤ code (negsuc 0)
    then err duplicate_order
    else if eq_ℤ code (negsuc 1)
    then err sold_out
    else err (failure (codes "unexpected redis reserve code: " ++ print_int code))
interpret values = err (failure (codes "unexpected redis reserve result"))

module _ (R : Redis) where
  -- A round trip to the server.
  abbrev pub answered : {A : Type 0} → Option Error → Result A × R.State → Result A × R.State
  answered none answer = answer
  answered (some e) (r, s) = (err e, s)

  abbrev pub call : {A : Type 0} → (R.State → Result A × R.State) → R.State → Result A × R.State
  call f s = elim (R.send s) [ some e ↦ (err e, s) | none ↦ answered (R.receive (f s).1) (f s) ]

  abbrev pub interpreted : Result (List ℤ) × R.State → Result ℤ × R.State
  interpreted (ok values, s) = (interpret values, s)
  interpreted (err e, s) = (err e, s)

  unfoldable pub reserve : ℤ → Activity → ℕ → R.State → Result ℤ × R.State
  unfolding reserve_script
  reserve now activity user_id s = interpreted (
      call
        (reserve_script R (stock_key activity.id) (users_key activity.id) activity.stock
          (decimal user_id) (reserve_ttl now activity.end_at))
        s)

  unfoldable pub set_stock : ℤ → ℕ → ℤ → ℤ → R.State → Result (Unit {0}) × R.State
  set_stock now activity_id stock end_at =
      let ttl = reserve_ttl now end_at in
      call (λ s.
        (ok tt, R.expire (users_key activity_id) ttl (R.set (stock_key activity_id) stock ttl s)))

  unfoldable pub prewarm : ℤ → Activity → R.State → Result (Unit {0}) × R.State
  unfolding set_stock
  prewarm now activity = set_stock now activity.id activity.stock activity.end_at

  abbrev pub read_stock : Option Value → Result (ℤ × Bool)
  read_stock none = ok (pos 0, false)
  read_stock (some (number v)) = ok (v, true)
  read_stock (some (unreadable t)) = err (failure (codes "invalid redis stock value" ++ t))

  unfoldable pub get_stock : ℕ → R.State → Result (ℤ × Bool)
  get_stock activity_id s = (call (λ s. (read_stock (R.get (stock_key activity_id) s), s)) s).0

  unfoldable pub release : ℕ → ℕ → R.State → Result (Unit {0}) × R.State
  unfolding release_script
  release activity_id user_id =
      call (release_script R (stock_key activity_id) (users_key activity_id) (decimal user_id))
