-- ===== src/Redis/Keys.antt =====
-- `stockKey` and `usersKey` of internal/service/redis_stock.go, and that they do not clash.
use go_order_lab.Prelude.{
  ℕ, zero, suc, ◌≡◌, ap, sym, ◌∙◌, true, false, ◌∷◌, ◌++◌, Text, codes, text_eq, text_eq-eq,
  text_eq_refl, decimal, decimal_split, Bool-cases, inl, inr, ◌==◌, arith, [], decimal_injective,
}

unfoldable pub stock_key : ℕ → Text
stock_key activity_id = codes "order:activity:" ++ decimal activity_id ++ codes ":stock"

unfoldable pub users_key : ℕ → Text
users_key activity_id = codes "order:activity:" ++ decimal activity_id ++ codes ":users"

abbrev tail : Text → Text
tail [] = []
tail (c ∷ s) = s

abbrev drop : ℕ → Text → Text
drop zero s = s
drop (suc n) s = drop n (tail s)

-- What follows the common start of the keys.
key_end : (s t : Text) → codes "order:activity:" ++ s ≡ codes "order:activity:" ++ t → s ≡ t
key_end s t e = ap (drop 15) e

-- The test on texts that an injection gives is the test on the numbers.
injective-same :
    (f : ℕ → Text) → ((a b : ℕ) → f a ≡ f b → a ≡ b) → (a b : ℕ) → text_eq (f a) (f b) ≡ (a == b)
injective-same f injective a b = elim (Bool-cases (text_eq (f a) (f b))) [
  | inl e ↦ (let p = injective a b (text_eq-eq _ _ e) in ground arith)
  | inr e ↦ elim (Bool-cases (a == b)) [
    | inl h ↦
        (let p : a ≡ b = ground arith in
          e ∙ absurd (clash (sym (text_eq_refl (f a)) ∙ ap (λ x. text_eq (f a) (f x)) p ∙ e)))
    | inr h ↦ e ∙ sym h
  ]
]
  where
    clash : true ≡ false → ⊥
    clash h = cc

different : (s t : Text) → (s ≡ t → ⊥) → text_eq s t ≡ false
different s t h = elim (Bool-cases (text_eq s t)) [
  | inl e ↦ absurd (h (text_eq-eq s t e))
  | inr e ↦ e
]

-- The stock keys of two activities are equal just if the activities are.
pub stock_key-same : (a b : ℕ) → text_eq (stock_key a) (stock_key b) ≡ (a == b)
unfolding stock_key
stock_key-same = injective-same stock_key (λ a b e. (decimal_split a b _ _ (key_end _ _ e)).0)

-- A stock key is no users key.
pub stock_key-users_key : (a b : ℕ) → text_eq (stock_key a) (users_key b) ≡ false
unfolding stock_key users_key
stock_key-users_key a b =
    different _ _ (λ e. let q = (decimal_split a b _ _ (key_end _ _ e)).1 in ground arith)

pub users_key-stock_key : (a b : ℕ) → text_eq (users_key a) (stock_key b) ≡ false
unfolding stock_key users_key
users_key-stock_key a b =
    different _ _ (λ e. let q = (decimal_split a b _ _ (key_end _ _ e)).1 in ground arith)

-- The users' members are their decimal prints.
pub decimal-same : (a b : ℕ) → text_eq (decimal a) (decimal b) ≡ (a == b)
decimal-same = injective-same decimal decimal_injective
