-- ===== src/Store/Rows.antt =====
-- Lists of rows in the order of their primary keys, and what a SQL statement means on them.
use go_order_lab.Prelude.{
  ℕ, suc, ◌+◌, ◌≡◌, refl, ◌≢◌, Bool, true, false, Option, none, some, List, [], ◌∷◌, ◌++◌, arith,
  ◌==◌, if◌then◌else◌, ℤ, Bool-cases, inl, inr, ap, subst,
}

-- The columns that gorm sets by itself (`gorm:"primaryKey"`, CreatedAt, UpdatedAt). An instant is
-- in nanoseconds.
pub record Base : Type 0 where
  pub id : ℕ
  pub created_at : ℤ
  pub updated_at : ℤ

-- A table's row type: its managed columns, and which two rows a unique index excludes.
pub record Columns (R : Type 0) : Type 0 where
  pub base : R → Base
  pub set_base : Base → R → R
  pub conflict : R → R → Bool
  pub base-set_base : (b : Base) (r : R) → base (set_base b r) ≡ b

module _ {R : Type 0} where
  abbrev pub find_first : (R → Bool) → List R → Option R
  find_first p [] = none
  find_first p (x ∷ xs) = if p x then some x else find_first p xs

  abbrev pub select : (R → Bool) → List R → List R
  select p [] = []
  select p (x ∷ xs) = if p x then x ∷ select p xs else select p xs

  abbrev pub update_where : (R → Bool) → (R → R) → List R → List R
  update_where p f [] = []
  update_where p f (x ∷ xs) = (if p x then f x else x) ∷ update_where p f xs

  abbrev pub delete_where : (R → Bool) → List R → List R
  delete_where p [] = []
  delete_where p (x ∷ xs) = if p x then delete_where p xs else x ∷ delete_where p xs

  abbrev pub any : (R → Bool) → List R → Bool
  any p [] = false
  any p (x ∷ xs) = if p x then true else any p xs

  abbrev pub count : (R → Bool) → List R → ℕ
  count p [] = 0
  count p (x ∷ xs) = if p x then suc (count p xs) else count p xs

  abbrev pub All : (R → Type 0) → List R → Type 0
  All P [] = Unit
  All P (x ∷ xs) = P x × All P xs

  pub find_first-holds :
      (p : R → Bool) (xs : List R) (r : R) → find_first p xs ≡ some r → p r ≡ true
  find_first-holds p [] r h = cc
  find_first-holds p (x ∷ xs) r h = ground (arith, find_first-holds p xs r)

  pub All-find_first :
      (P : R → Type 0) (p : R → Bool) (xs : List R) (r : R)
      → All P xs
      → find_first p xs ≡ some r
      → P r
  All-find_first P p [] r a h = cc
  All-find_first P p (x ∷ xs) r a h = elim (Bool-cases (p x)) [
    | inl e ↦ (let q : x ≡ r = ground arith in subst P q a.0)
    | inr e ↦ All-find_first P p xs r a.1 (ground arith)
  ]

  pub All-append : (P : R → Type 0) (xs ys : List R) → All P xs → All P ys → All P (xs ++ ys)
  All-append P [] ys hx hy = hy
  All-append P (x ∷ xs) ys hx hy = (hx.0, All-append P xs ys hx.1 hy)

  pub All-select : (P : R → Type 0) (p : R → Bool) (xs : List R) → All P xs → All P (select p xs)
  All-select P p [] a = tt
  All-select P p (x ∷ xs) a = ground (arith, All-select P p xs a.1)

  pub count-append : (p : R → Bool) (xs ys : List R) → count p (xs ++ ys) ≡ count p xs + count p ys
  count-append p [] ys = omega arith
  count-append p (x ∷ xs) ys = ground (arith, count-append p xs ys)

  pub any_of_first :
      (p : R → Bool) (xs : List R) (r : R) → find_first p xs ≡ some r → any p xs ≡ true
  any_of_first p [] r h = cc
  any_of_first p (x ∷ xs) r h = ground (arith, any_of_first p xs r)

  -- A row that is appended where none met `p` is the first that does.
  pub find_first-append_fresh :
      (p : R → Bool) (xs : List R) (r : R)
      → any p xs ≡ false
      → p r ≡ true
      → find_first p (xs ++ r ∷ []) ≡ some r
  find_first-append_fresh p [] r fresh own = rw own refl
  find_first-append_fresh p (x ∷ xs) r fresh own = ground (arith, find_first-append_fresh p xs r)

  pub count_none : (p : R → Bool) (xs : List R) → count p xs ≡ 0 → any p xs ≡ false
  count_none p [] h = refl
  count_none p (x ∷ xs) h = ground (arith, count_none p xs)

module _ {R : Type 0} (c : Columns R) where
  open c use {base, set_base}

  abbrev pub has_id : ℕ → R → Bool
  has_id k x = (base x).id == k

  -- `Save`: an UPDATE by primary key, or an INSERT where no row has it.
  abbrev pub upsert : R → List R → List R
  upsert r [] = r ∷ []
  upsert r (x ∷ xs) = if (base x).id == (base r).id then r ∷ xs else x ∷ upsert r xs

  -- No two rows share a primary key.
  abbrev pub Unique : List R → Type 0
  Unique [] = Unit
  Unique (x ∷ xs) = All (λ y. (base y).id ≢ (base x).id) xs × Unique xs

  abbrev pub stamp : ℤ → R → R
  stamp t r = set_base (record (base r) { updated_at = t }) r

  abbrev pub stamp_new : ℕ → ℤ → R → R
  stamp_new k t r = set_base (record { id = k; created_at = t; updated_at = t }) r

  pub stamp_id : (t : ℤ) (r : R) → (base (stamp t r)).id ≡ (base r).id
  stamp_id t r = ap (λ b. b.id) (c.base-set_base (record (base r) { updated_at = t }) r)
