-- ===== src/Prelude/Actions.antt =====
-- Results with the program's errors, and actions on a state: what was written before an error stays
-- written, unless a transaction takes it back.
use mathlib.Core.Path.{◌≡◌, refl}
use mathlib.Core.Logic.{◌⊎◌, inl, inr}
use mathlib.Core.Bool.{Bool}
use go_order_lab.Prelude.Tests.{if◌then◌else◌}
use go_order_lab.Prelude.Texts.{Text}

-- The `error` values: the sentinels of internal/service/order.go, the errors of `context` and gorm
-- that the code tells apart, and any other by its text.
pub data Error : Type 0 where
  activity_not_found activity_not_available sold_out duplicate_order : Error
  order_not_found illegal_transition : Error
  canceled deadline_exceeded record_not_found : Error
  failure : Text → Error

pub data Result (A : Type 0) : Type 0 where
  ok : A → Result A
  err : Error → Result A

abbrev pub Action : Type 0 → Type 0 → Type 0
Action S A = S → Result A × S

infixl 5 ◌>>=◌ ◌>>◌
abbrev pub ◌>>=◌ : {S A B : Type 0} → Action S A → (A → Action S B) → Action S B
◌>>=◌ m f s = let (r, s') = m s in elim r [ ok a ↦ f a s' | err e ↦ (err e, s') ]

abbrev pub ◌>>◌ : {S A B : Type 0} → Action S A → Action S B → Action S B
m >> k = m >>= λ _. k

abbrev pub pure : {S A : Type 0} → A → Action S A
pure a s = (ok a, s)

abbrev pub raise : {S A : Type 0} → Error → Action S A
raise e s = (err e, s)

abbrev pub raise_if : {S : Type 0} → Bool → Error → Action S (Unit {0})
raise_if c e s = (if c then err e else ok tt, s)

abbrev pub query : {S A : Type 0} → (S → Result A) → Action S A
query f s = (f s, s)

-- An error of the call is replaced by `e`.
abbrev pub query_or : {S A : Type 0} → Error → (S → Result A) → Action S A
query_or e f s = (elim (f s) [ ok a ↦ ok a | err _ ↦ err e ], s)

-- A call that returns a new part of the state, with the way to put that part back.
abbrev pub execute : {S T A : Type 0} → (S → Result (A × T)) → (T → S → S) → Action S A
execute f put s = elim (f s) [ ok (a, t) ↦ (ok a, put t s) | err e ↦ (err e, s) ]

pub Result-cases :
    {A : Type 0} (r : Result A) → ((a : A) × (r ≡ ok a)) ⊎ ((e : Error) × (r ≡ err e))
Result-cases (ok a) = inl (a, refl)
Result-cases (err e) = inr (e, refl)
