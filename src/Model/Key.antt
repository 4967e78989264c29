-- ===== src/Model/Key.antt =====
-- `NewActivityOrderKey` of internal/model/model.go: the text under which the unique index of the
-- orders keeps a user to one order of an activity.
use go_order_lab.Prelude.{
  ℕ, Option, none, some, Text, ◌∷◌, ◌++◌, ◌==◌, ◌||◌, if◌then◌else◌, decimal,
  decimal_pair_injective, Bool-cases, inl, inr, ◌≡◌, arith,
}

unfoldable pub new_activity_order_key : ℕ → ℕ → Option Text
new_activity_order_key user_id activity_id =
    if user_id == 0 || activity_id == 0
    then none
    else some (decimal user_id ++ (b':' ∷ decimal activity_id))

-- Two pairs of a user and an activity that have a key have the same key only if they are the same.
pub new_activity_order_key-injective :
    (a b c d : ℕ) (key : Text)
    → new_activity_order_key a b ≡ some key
    → new_activity_order_key c d ≡ some key
    → (a ≡ c) × (b ≡ d)
unfolding new_activity_order_key
new_activity_order_key-injective a b c d key h k = elim (Bool-cases (a == 0 || b == 0)) [
  | inl none_of ↦ absurd (ground arith)
  | inr some_of ↦ elim (Bool-cases (c == 0 || d == 0)) [
    | inl none_of ↦ absurd (ground arith)
    | inr some_of' ↦ decimal_pair_injective a b c d (ground arith)
  ]
]
