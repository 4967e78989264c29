-- ===== src/Store/Table.antt =====
-- One table as the services see it through gorm: the calls, and what a call that succeeds has done.
-- Any call may fail, and a state may hide anything, such as the fate of the connection.
use go_order_lab.Prelude.{
  ℕ, ◌<◌, ◌≡◌, Bool, true, false, some, none, List, [], ◌∷◌, ◌++◌, Result, ok, err,
  record_not_found, ℤ,
}
use go_order_lab.Store.Rows.{
  Columns, find_first, select, update_where, delete_where, any, count, All, upsert, Unique, stamp,
  stamp_new,
}
use go_order_lab.Store.Sums.{sum_by}

pub record Table {R : Type 0} (c : Columns R) : Type 1 where
  pub State : Type 0
  pub rows : State → List R
  pub clock : State → ℤ
  -- `Where(p).First(&r)` and `First(&r, id)`
  pub first : (R → Bool) → State → Result R
  -- `Where(p).Find(&rs)`
  pub find : (R → Bool) → State → Result (List R)
  -- `Model(&R{}).Where(p).Count(&n)`
  pub count_where : (R → Bool) → State → Result ℕ
  -- `Select("COALESCE(SUM(column), 0)").Scan(&n)`
  pub sum_where : (R → Bool) → (R → ℤ) → State → Result ℤ
  pub save : R → State → Result (Unit {0} × State)
  pub create : R → State → Result (R × State)
  -- `Model(&R{}).Where(p).Update(…)`, with RowsAffected
  pub update : (R → Bool) → (R → R) → State → Result (ℕ × State)
  -- `Model(&R{}).Where(p).UpdateColumn(…)`, which leaves UpdatedAt alone
  pub update_column : (R → Bool) → (R → R) → State → Result (ℕ × State)
  pub delete : (R → Bool) → State → Result (Unit {0} × State)
  -- Primary keys are unique and count from 1.
  pub unique : (s : State) → Unique c (rows s)
  pub id_pos : (s : State) → All (λ r. 0 < (c.base r).id) (rows s)
  pub first_ok :
      (p : R → Bool) (s : State) (r : R) → first p s ≡ ok r → find_first p (rows s) ≡ some r
  pub first_missing :
      (p : R → Bool) (s : State) → first p s ≡ err record_not_found → find_first p (rows s) ≡ none
  pub find_ok : (p : R → Bool) (s : State) (rs : List R) → find p s ≡ ok rs → rs ≡ select p (rows s)
  pub count_ok : (p : R → Bool) (s : State) (n : ℕ) → count_where p s ≡ ok n → n ≡ count p (rows s)
  pub sum_ok :
      (p : R → Bool) (f : R → ℤ) (s : State) (n : ℤ)
      → sum_where p f s ≡ ok n
      → n ≡ sum_by f (select p (rows s))
  pub save_ok :
      (r : R) (s s' : State)
      → save r s ≡ ok (tt, s')
      → rows s' ≡ upsert c (stamp c (clock s) r) (rows s)
  -- An INSERT passes the unique indexes.
  pub create_ok :
      (r : R) (s : State) (r' : R) (s' : State)
      → create r s ≡ ok (r', s')
      → (r' ≡ stamp_new c (c.base r').id (clock s) r)
        × (rows s' ≡ rows s ++ r' ∷ [])
        × (any (c.conflict r) (rows s) ≡ false)
  pub update_ok :
      (p : R → Bool) (f : R → R) (s : State) (n : ℕ) (s' : State)
      → update p f s ≡ ok (n, s')
      → rows s' ≡ update_where p (λ r. stamp c (clock s) (f r)) (rows s)
  pub update_column_ok :
      (p : R → Bool) (f : R → R) (s : State) (n : ℕ) (s' : State)
      → update_column p f s ≡ ok (n, s')
      → rows s' ≡ update_where p f (rows s)
  -- RowsAffected is positive only if a row matched, and 0 only if nothing changed.
  pub affected_some :
      (p : R → Bool) (f : R → R) (s : State) (n : ℕ) (s' : State)
      → update_column p f s ≡ ok (n, s')
      → 0 < n
      → any p (rows s) ≡ true
  pub affected_none :
      (p : R → Bool) (f : R → R) (s : State) (s' : State)
      → update_column p f s ≡ ok (0, s')
      → rows s' ≡ rows s
  pub delete_ok :
      (p : R → Bool) (s s' : State) → delete p s ≡ ok (tt, s') → rows s' ≡ delete_where p (rows s)
