-- ===== src/Pressure/Sorted.antt =====
-- The sorted latencies of cmd/pressure/main.go.
use go_order_lab.Prelude.{
  ℕ, zero, suc, ◌≤◌, ◌≡◌, refl, ap, ◌∙◌, true, some, List, [], ◌∷◌, length, get_elem?, arith,
  Bool-cases, inl, inr, map,
}
use go_order_lab.Floats.{Floats}
use go_order_lab.Metrics.Keys.{insert, sort_by}

pub length-map : {A B : Type 0} (f : A → B) (xs : List A) → length (map f xs) ≡ length xs
length-map f [] = refl
length-map f (x ∷ xs) = ap suc (length-map f xs)

module _ (R : Floats) where
  open R use {F, leb}

  abbrev pub Below : F → List F → Type 0
  Below x [] = Unit
  Below x (y ∷ ys) = (leb x y ≡ true) × Below x ys

  abbrev pub IsSorted : List F → Type 0
  IsSorted [] = Unit
  IsSorted (x ∷ xs) = Below x xs × IsSorted xs

  Below-le : (x y : F) (xs : List F) → leb x y ≡ true → Below y xs → Below x xs
  Below-le x y [] h b = tt
  Below-le x y (z ∷ xs) h b = (R.leb_trans x y z h b.0, Below-le x y xs h b.1)

  Below-insert : (x y : F) (xs : List F) → leb x y ≡ true → Below x xs → Below x (insert leb y xs)
  Below-insert x y [] h b = (h, tt)
  Below-insert x y (z ∷ xs) h b = elim (Bool-cases (leb y z)) [
    | inl e ↦ rw e (h, b)
    | inr e ↦ rw e (b.0, Below-insert x y xs h b.1)
  ]

  insert-IsSorted : (x : F) (xs : List F) → IsSorted xs → IsSorted (insert leb x xs)
  insert-IsSorted x [] s = (tt, tt)
  insert-IsSorted x (y ∷ xs) s = elim (Bool-cases (leb x y)) [
    | inl e ↦ rw e ((e, Below-le x y xs e s.0), s)
    | inr e ↦ rw e (Below-insert y x xs (R.leb_total x y e) s.0, insert-IsSorted x xs s.1)
  ]

  pub sort_by-IsSorted : (xs : List F) → IsSorted (sort_by leb xs)
  unfolding sort_by
  sort_by-IsSorted [] = tt
  sort_by-IsSorted (x ∷ xs) = insert-IsSorted x (sort_by leb xs) (sort_by-IsSorted xs)

  length-insert : (x : F) (xs : List F) → length (insert leb x xs) ≡ suc (length xs)
  length-insert x [] = refl
  length-insert x (y ∷ xs) = elim (Bool-cases (leb x y)) [
    | inl e ↦ rw e refl
    | inr e ↦ rw e (ap suc (length-insert x xs))
  ]

  pub length-sort_by : (xs : List F) → length (sort_by leb xs) ≡ length xs
  unfolding sort_by
  length-sort_by [] = refl
  length-sort_by (x ∷ xs) = length-insert x (sort_by leb xs) ∙ ap suc (length-sort_by xs)

  Below-get :
      (x y : F) (xs : List F) (i : ℕ) → Below x xs → get_elem? xs i ≡ some y → leb x y ≡ true
  Below-get x y [] i b e = cc
  Below-get x y (z ∷ xs) zero b e = let same : z ≡ y = cc in rw (← same) b.0
  Below-get x y (z ∷ xs) (suc i) b e = Below-get x y xs i b.1 e

  -- A later place holds no smaller number.
  pub get_elem?_mono :
      (xs : List F) (i j : ℕ) (x y : F)
      → IsSorted xs
      → i ≤ j
      → get_elem? xs i ≡ some x
      → get_elem? xs j ≡ some y
      → leb x y ≡ true
  get_elem?_mono [] i j x y s le ei ej = cc
  get_elem?_mono (z ∷ xs) zero zero x y s le ei ej = let same : x ≡ y = cc in rw same (R.leb_refl y)
  get_elem?_mono (z ∷ xs) zero (suc j) x y s le ei ej =
      let same : z ≡ x = cc in rw (← same) (Below-get z y xs j s.0 ej)
  get_elem?_mono (z ∷ xs) (suc i) zero x y s le ei ej = absurd (omega arith)
  get_elem?_mono (z ∷ xs) (suc i) (suc j) x y s le ei ej =
      get_elem?_mono xs i j x y s.1 (omega arith) ei ej
