-- ===== src/Redis/Scripts.antt =====
-- The two Lua scripts of internal/service/redis_stock.go, which the server runs as one step each.
-- Lua's numbers are exact here: the stocks are far below 2 ^ 53.
use go_order_lab.Prelude.{
  Option, none, some, List, [], ◌∷◌, Result, ok, err, failure, ℤ, pos, negsuc, leb_ℤ, Text, codes,
  if◌then◌else◌,
}
use go_order_lab.Redis.Commands.{Redis, as_number}

module _ (R : Redis) where
  -- The stock's entry, written if it is missing.
  unfoldable pub ensure_stock : Text → ℤ → ℤ → R.State → R.State
  ensure_stock stock_key initial_stock ttl s = elim (R.get stock_key s) [
    | none ↦ R.set stock_key initial_stock ttl s
    | some _ ↦ s
  ]

  -- A nil ends the array of a reply.
  abbrev pub second_answer : Option ℤ → List ℤ
  second_answer none = negsuc 0 ∷ []
  second_answer (some v) = negsuc 0 ∷ v ∷ []

  abbrev pub take_unit : Text → Text → Text → ℤ → R.State → Result (List ℤ) × R.State
  take_unit stock_key users_key user_id ttl s =
      let (r, s') = R.decrement stock_key s in
      elim r [
        | err e ↦ (err e, s')
        | ok left ↦ (ok (pos 0 ∷ left ∷ []), R.expire users_key ttl (R.add users_key user_id s'))
      ]

  abbrev pub take_if_left : Text → Text → Text → ℤ → Option ℤ → R.State → Result (List ℤ) × R.State
  take_if_left stock_key users_key user_id ttl none s =
      (err (failure (codes "attempt to compare nil with number")), s)
  take_if_left stock_key users_key user_id ttl (some stock) s =
      if leb_ℤ stock (pos 0)
      then (ok (negsuc 1 ∷ stock ∷ []), s)
      else take_unit stock_key users_key user_id ttl s

  -- The script behind its first two commands.
  unfoldable pub reserve_unit : Text → Text → Text → ℤ → R.State → Result (List ℤ) × R.State
  reserve_unit stock_key users_key user_id ttl s =
      if R.is_member users_key user_id s
      then (ok (second_answer (as_number (R.get stock_key s))), s)
      else take_if_left stock_key users_key user_id ttl (as_number (R.get stock_key s)) s

  unfoldable pub reserve_script : Text → Text → ℤ → Text → ℤ → R.State → Result (List ℤ) × R.State
  unfolding ensure_stock reserve_unit
  reserve_script stock_key users_key initial_stock user_id ttl s =
      reserve_unit stock_key users_key user_id ttl
        (R.expire users_key ttl (ensure_stock stock_key initial_stock ttl s))

  -- What was removed stays removed if INCR fails.
  unfoldable pub release_script : Text → Text → Text → R.State → Result (Unit {0}) × R.State
  release_script stock_key users_key user_id s =
      let (removed, s') = R.remove users_key user_id s in
      if removed
      then (let (r, s'') = R.increment stock_key s' in
          elim r [ ok _ ↦ (ok tt, s'') | err e ↦ (err e, s'') ])
      else (ok tt, s')
