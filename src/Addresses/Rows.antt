-- ===== src/Addresses/Rows.antt =====
-- The default addresses in the table of the addresses, under the statements that change them.
use go_order_lab.Prelude.{
  ℕ, ◌+◌, ◌≤◌, ◌≡◌, refl, Bool, true, ◌&&◌, ℤ, List, [], ◌∷◌, ◌++◌, arith, if◌then◌else◌,
}
use go_order_lab.Store.Rows.{select, count, count-append, update_where, upsert, stamp}
use go_order_lab.Model.{Address, address_columns}
use go_order_lab.Addresses.{address_of, no_default}

abbrev pub default_of : ℕ → Address → Bool
default_of v a = address_of v a && a.is_default

abbrev pub one_if : Bool → ℕ
one_if b = if b then 1 else 0

module _ (u : ℕ) (t : ℤ) where
  abbrev pub cleared : List Address → List Address
  cleared = update_where (address_of u) (λ a. stamp address_columns t (no_default a))

  pub cleared_none : (xs : List Address) → count (default_of u) (cleared xs) ≡ 0
  cleared_none [] = refl
  cleared_none (x ∷ xs) = ground (arith, cleared_none xs)

  pub cleared_fewer :
      (v : ℕ) (xs : List Address) → count (default_of v) (cleared xs) ≤ count (default_of v) xs
  cleared_fewer v [] = omega arith
  cleared_fewer v (x ∷ xs) = ground (arith, cleared_fewer v xs)

pub select_none :
    (v : ℕ) (xs : List Address) → count (default_of v) xs ≡ 0 → select (default_of v) xs ≡ []
select_none v [] none = refl
select_none v (x ∷ xs) none = ground (arith, select_none v xs)

pub upsert_one_more :
    (v : ℕ) (a : Address) (xs : List Address)
    → count (default_of v) (upsert address_columns a xs)
      ≤ count (default_of v) xs + one_if (default_of v a)
upsert_one_more v a [] = ground arith
upsert_one_more v a (x ∷ xs) = ground (arith, upsert_one_more v a xs)

pub upsert_only :
    (v : ℕ) (a : Address) (xs : List Address)
    → count (default_of v) xs ≡ 0
    → default_of v a ≡ true
    → select (default_of v) (upsert address_columns a xs) ≡ a ∷ []
upsert_only v a [] none own = rw own refl
upsert_only v a (x ∷ xs) none own = ground (arith, upsert_only v a xs, select_none v xs)

pub append_one_more :
    (v : ℕ) (a : Address) (xs : List Address)
    → count (default_of v) (xs ++ a ∷ []) ≡ count (default_of v) xs + one_if (default_of v a)
append_one_more v a xs = count-append (default_of v) xs (a ∷ [])
