-- ===== src/Store/Effects.antt =====
-- What the calls of a table do to a sum over its rows.
use go_order_lab.Prelude.{
  ℕ, ◌≡◌, refl, ◌≢◌, subst, ◌∙◌, ap, Bool, true, false, some, List, [], ◌∷◌, arith, ◌==◌,
  if◌then◌else◌, ℤ, pos, ◌+ℤ◌, ◌≤ℤ◌, int_laws, Bool-cases, inl, inr, ok, ==_iff,
}
use go_order_lab.Store.Rows.{
  Columns, find_first, update_where, any, All, All-find_first, Unique, has_id, stamp, stamp_new,
  stamp_id,
}
use go_order_lab.Store.Table.{Table}
use go_order_lab.Store.Sums.{sum_by, sum_by-snoc, sum_by-upsert}

module _ {R : Type 0} {c : Columns R} (T : Table c) (f : R → ℤ) where
  -- Saving a row that was found exchanges its part of the sum.
  pub save_sum :
      (stable : (t : ℤ) (r : R) → f (stamp c t r) ≡ f r) (p : R → Bool) (r r' : R) (s s' : T.State)
      → T.first p s ≡ ok r
      → (c.base r').id ≡ (c.base r).id
      → T.save r' s ≡ ok (tt, s')
      → sum_by f (T.rows s') +ℤ f r ≡ sum_by f (T.rows s) +ℤ f r'
  save_sum stable p r r' s s' found key saved = rw (T.save_ok r' s s' saved) (
      sum_by-upsert c f p r (stamp c (T.clock s) r') (T.rows s) (T.unique s)
        (T.first_ok p s r found) (stamp_id c (T.clock s) r' ∙ key)
      ∙ ap (λ v. sum_by f (T.rows s) +ℤ v) (stable (T.clock s) r'))

  pub create_sum :
      (stable : (k : ℕ) (t : ℤ) (r : R) → f (stamp_new c k t r) ≡ f r) (r : R) (s : T.State)
      (r' : R) (s' : T.State)
      → T.create r s ≡ ok (r', s')
      → sum_by f (T.rows s') ≡ sum_by f (T.rows s) +ℤ f r
  create_sum stable r s r' s' made =
      let (row, rows, _) = T.create_ok r s r' s' made in
      rw rows (
        sum_by-snoc f (T.rows s) r'
        ∙ ap (λ v. sum_by f (T.rows s) +ℤ v) (ap f row ∙ stable _ (T.clock s) r))

module _ {R : Type 0} (f : R → ℤ) where
  pub sum_by-nonneg : (nonneg : (r : R) → pos 0 ≤ℤ f r) (xs : List R) → pos 0 ≤ℤ sum_by f xs
  unfolding sum_by
  sum_by-nonneg nonneg [] = omega arith
  sum_by-nonneg nonneg (x ∷ xs) = omega (int_laws, nonneg x, sum_by-nonneg nonneg xs)

  -- The part of a row that was found is no more than the whole.
  pub sum_by-first :
      (nonneg : (r : R) → pos 0 ≤ℤ f r) (p : R → Bool) (xs : List R) (r : R)
      → find_first p xs ≡ some r
      → f r ≤ℤ sum_by f xs
  unfolding sum_by
  sum_by-first nonneg p [] r h = cc
  sum_by-first nonneg p (x ∷ xs) r h = elim (Bool-cases (p x)) [
    | inl hit ↦ grind (int_laws, sum_by-nonneg nonneg xs)
    | inr miss ↦
        (let there : find_first p xs ≡ some r = ground arith in
          omega (int_laws, nonneg x, sum_by-first nonneg p xs r there))
  ]

-- A sum that looks at the rows of one primary key `k` only.
module _ {R : Type 0} (c : Columns R) (k : ℕ) (g : R → ℤ) where
  open c use {base}

  abbrev pub at_id : R → ℤ
  at_id r = if (base r).id == k then g r else pos 0

  pub at_id_absent : (xs : List R) → All (λ y. (base y).id ≢ k) xs → sum_by at_id xs ≡ pos 0
  unfolding sum_by
  at_id_absent [] h = refl
  at_id_absent (x ∷ xs) h = grind (int_laws, at_id_absent xs h.1)

  pub at_id_found :
      (xs : List R) (r : R)
      → Unique c xs
      → find_first (has_id c k) xs ≡ some r
      → sum_by at_id xs ≡ g r
  unfolding sum_by
  at_id_found [] r u h = cc
  at_id_found (x ∷ xs) r u h = elim (Bool-cases ((base x).id == k)) [
    | inl hit ↦
        (let same : (base x).id ≡ k = (==_iff (base x).id k).0 hit in
          let apart : All (λ y. (base y).id ≢ k) xs = rw same at u.0 in
          grind (int_laws, at_id_absent xs apart))
    | inr miss ↦
        (let there : find_first (has_id c k) xs ≡ some r = ground arith in
          grind (int_laws, at_id_found xs r u.1 there))
  ]

-- An UPDATE of the one row with key `j`.
module _ {R : Type 0} (c : Columns R) (k j : ℕ) (g : R → ℤ) (p : R → Bool) (h : R → R) where
  open c use {base}

  update_where_apart :
      (xs : List R)
      → ((r : R) → p r ≡ true → (base r).id ≡ j)
      → All (λ y. (base y).id ≢ j) xs
      → update_where p h xs ≡ xs
  update_where_apart [] only a = refl
  update_where_apart (x ∷ xs) only a = elim (Bool-cases (p x)) [
    | inl hit ↦ absurd (a.0 (only x hit))
    | inr miss ↦ rw (miss, update_where_apart xs only a.1)
  ]

  -- The row that a condition on one key matches is the row of this key.
  pub any_located :
      (xs : List R)
      → ((r : R) → p r ≡ true → (base r).id ≡ j)
      → Unique c xs
      → any p xs ≡ true
      → (r : R) × (find_first (has_id c j) xs ≡ some r) × (p r ≡ true)
  any_located [] only u e = absurd (cc)
  any_located (x ∷ xs) only u e = elim (Bool-cases (p x)) [
    | inl hit ↦
        (let here : ((base x).id == j) ≡ true = (==_iff (base x).id j).1 (only x hit) in
          (x, rw here refl, hit))
    | inr miss ↦
        (let (r, found, holds) = any_located xs only u.1 (rw miss at e) in
          let apart : (base r).id ≢ (base x).id =
            All-find_first (λ y. (base y).id ≢ (base x).id) (has_id c j) xs r u.0 found in
          let key : (base r).id ≡ j = only r holds in
          let other : ((base x).id == j) ≡ false = ground arith in (r, rw other found, holds))
  ]

  -- It changes the sum by what it changes in this row.
  pub update_where_sum :
      (d : ℤ) (xs : List R)
      → ((r : R) → p r ≡ true → (base r).id ≡ j)
      → ((r : R) → (base (h r)).id ≡ (base r).id)
      → ((r : R) → p r ≡ true → g (h r) +ℤ d ≡ g r)
      → Unique c xs
      → any p xs ≡ true
      → sum_by (at_id c k g) (update_where p h xs) +ℤ (if j == k then d else pos 0)
        ≡ sum_by (at_id c k g) xs
  unfolding sum_by
  update_where_sum d [] only key step u e = absurd (cc)
  update_where_sum d (x ∷ xs) only key step u e = elim (Bool-cases (p x)) [
    | inl hit ↦
        (let apart : All (λ y. (base y).id ≢ j) xs =
            subst (λ i. All (λ y. (base y).id ≢ i) xs) (only x hit) u.0 in
          rw (hit, update_where_apart xs only apart)
            (grind (int_laws, only x hit, key x, step x hit)))
    | inr miss ↦
        (let rest = update_where_sum d xs only key step u.1 (rw miss at e) in
          rw miss (grind (int_laws, rest)))
  ]
