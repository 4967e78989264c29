-- ===== src/Redis/Commands.antt =====
-- The Redis commands that internal/service/redis_stock.go sends, and what they are documented to do.
use go_order_lab.Prelude.{
  ◌≡◌, Bool, true, false, Option, none, some, Result, ok, Error, ℤ, pos, ◌+ℤ◌, ◌-ℤ◌, ◌<ℤ◌, Text,
  text_eq, if◌then◌else◌,
}

-- A string that reads as an integer, or any other.
pub data Value : Type 0 where
  number : ℤ → Value
  unreadable : Text → Value

-- `tonumber(GET … or "0")`, which is also what INCR and DECR count from.
abbrev pub as_number : Option Value → Option ℤ
as_number none = some (pos 0)
as_number (some (number v)) = some v
as_number (some (unreadable t)) = none

-- A request may fail before it is served, or its reply may be lost.
pub record Redis : Type 1 where
  pub State : Type 0
  pub send : State → Option Error
  pub receive : State → Option Error
  pub get : Text → State → Option Value
  pub is_member : Text → Text → State → Bool
  -- `SET key n EX ttl` and `EXPIRE key ttl`
  pub set : Text → ℤ → ℤ → State → State
  pub expire : Text → ℤ → State → State
  -- `SADD` and `SREM`, which says whether the member was there
  pub add : Text → Text → State → State
  pub remove : Text → Text → State → Bool × State
  pub increment : Text → State → Result ℤ × State
  pub decrement : Text → State → Result ℤ × State
  pub get-set :
      (k : Text) (n ttl : ℤ) (s : State) (j : Text)
      → pos 0 <ℤ ttl
      → get j (set k n ttl s) ≡ (if text_eq k j then some (number n) else get j s)
  pub is_member-set :
      (k : Text) (n ttl : ℤ) (s : State) (j m : Text)
      → text_eq k j ≡ false
      → is_member j m (set k n ttl s) ≡ is_member j m s
  pub get-expire :
      (k : Text) (ttl : ℤ) (s : State) (j : Text) → pos 0 <ℤ ttl → get j (expire k ttl s) ≡ get j s
  pub is_member-expire :
      (k : Text) (ttl : ℤ) (s : State) (j m : Text)
      → pos 0 <ℤ ttl
      → is_member j m (expire k ttl s) ≡ is_member j m s
  pub get-add :
      (k m : Text) (s : State) (j : Text) → text_eq k j ≡ false → get j (add k m s) ≡ get j s
  pub is_member-add :
      (k m : Text) (s : State) (n : Text)
      → is_member k n (add k m s) ≡ (if text_eq m n then true else is_member k n s)
  pub get-remove :
      (k m : Text) (s : State) (j : Text) → text_eq k j ≡ false → get j (remove k m s).1 ≡ get j s
  pub is_member-remove :
      (k m : Text) (s : State) (n : Text)
      → is_member k n (remove k m s).1 ≡ (if text_eq m n then false else is_member k n s)
  pub remove_hit : (k m : Text) (s : State) → (remove k m s).0 ≡ is_member k m s
  pub increment_ok :
      (k : Text) (s : State) (n : ℤ) (s' : State)
      → increment k s ≡ (ok n, s')
      → (as_number (get k s) ≡ some (n -ℤ pos 1))
        × (get k s' ≡ some (number n))
        × ((j m : Text) → text_eq k j ≡ false → is_member j m s' ≡ is_member j m s)
  pub decrement_ok :
      (k : Text) (s : State) (n : ℤ) (s' : State)
      → decrement k s ≡ (ok n, s')
      → (as_number (get k s) ≡ some (n +ℤ pos 1))
        × (get k s' ≡ some (number n))
        × ((j m : Text) → text_eq k j ≡ false → is_member j m s' ≡ is_member j m s)
