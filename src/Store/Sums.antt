-- ===== src/Store/Sums.antt =====
-- Sums over the rows of a table, how a write changes them, and what a sequence of writes may do to
-- the rows that were there.
use go_order_lab.Prelude.{
  ◌≡◌, refl, ◌≢◌, Bool, some, List, [], ◌∷◌, ◌++◌, arith, ℤ, pos, ◌+ℤ◌, int_laws, Bool-cases, inl,
  inr, ==_refl,
}
use go_order_lab.Store.Rows.{Columns, find_first, update_where, All-find_first, upsert, Unique}

module _ {R : Type 0} (f : R → ℤ) where
  unfoldable pub sum_by : List R → ℤ
  sum_by [] = pos 0
  sum_by (x ∷ xs) = f x +ℤ sum_by xs

  pub sum_by-nil : sum_by [] ≡ pos 0
  unfolding sum_by
  sum_by-nil = refl

  pub sum_by-append : (xs ys : List R) → sum_by (xs ++ ys) ≡ sum_by xs +ℤ sum_by ys
  unfolding sum_by
  sum_by-append [] ys = grind int_laws
  sum_by-append (x ∷ xs) ys = grind (int_laws, sum_by-append xs ys)

  pub sum_by-snoc : (xs : List R) (y : R) → sum_by (xs ++ y ∷ []) ≡ sum_by xs +ℤ f y
  unfolding sum_by
  sum_by-snoc xs y = grind (int_laws, sum_by-append xs (y ∷ []))

module _ {R : Type 0} (c : Columns R) (f : R → ℤ) where
  -- The write of a row that `find_first` found exchanges its part of the sum.
  pub sum_by-upsert :
      (p : R → Bool) (r r' : R) (xs : List R)
      → Unique c xs
      → find_first p xs ≡ some r
      → (c.base r').id ≡ (c.base r).id
      → sum_by f (upsert c r' xs) +ℤ f r ≡ sum_by f xs +ℤ f r'
  unfolding sum_by
  sum_by-upsert p r r' [] u h e = cc
  sum_by-upsert p r r' (x ∷ xs) u h e = elim (Bool-cases (p x)) [
    | inl hit ↦ grind (int_laws, ==_refl (c.base x).id)
    | inr miss ↦
        (let there : find_first p xs ≡ some r = ground arith in
          let apart : (c.base r).id ≢ (c.base x).id =
            All-find_first (λ y. (c.base y).id ≢ (c.base x).id) p xs r u.0 there in
          grind (int_laws, sum_by-upsert p r r' xs u.1 there e))
  ]

-- An UPDATE of columns that the sum does not look at.
pub sum_by-update_where :
    {R : Type 0} (f : R → ℤ) (p : R → Bool) (h : R → R) (xs : List R)
    → ((r : R) → f (h r) ≡ f r)
    → sum_by f (update_where p h xs) ≡ sum_by f xs
unfolding sum_by
sum_by-update_where f p h [] same = refl
sum_by-update_where f p h (x ∷ xs) same = ground (arith, same x, sum_by-update_where f p h xs same)
