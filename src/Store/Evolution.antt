-- ===== src/Store/Evolution.antt =====
-- What writes may do to the rows that were there: each row keeps its place and moves by a relation,
-- and new rows come at the end.
use go_order_lab.Prelude.{
  ◌≡◌, ◌≢◌, Bool, true, false, some, List, [], ◌∷◌, ◌++◌, arith, ◌==◌, Bool-cases, inl, inr, subst,
  ==_refl,
}
use go_order_lab.Store.Rows.{Columns, find_first, update_where, All-find_first, upsert, Unique}

module _ {R : Type 0} (Q : R → R → Type 0) where
  abbrev pub Evolves : List R → List R → Type 0
  Evolves [] ys = Unit
  Evolves (x ∷ xs) [] = ⊥
  Evolves (x ∷ xs) (y ∷ ys) = Q x y × Evolves xs ys

module _ {R : Type 0} (Q : R → R → Type 0) (idle : (x : R) → Q x x) where
  pub Evolves-append : (xs ys : List R) → Evolves Q xs (xs ++ ys)
  Evolves-append [] ys = tt
  Evolves-append (x ∷ xs) ys = (idle x, Evolves-append xs ys)

  pub Evolves-refl : (xs : List R) → Evolves Q xs xs
  Evolves-refl [] = tt
  Evolves-refl (x ∷ xs) = (idle x, Evolves-refl xs)

  pub Evolves-update_where :
      (p : R → Bool) (f : R → R) (xs : List R)
      → ((x : R) → p x ≡ true → Q x (f x))
      → Evolves Q xs (update_where p f xs)
  Evolves-update_where p f [] h = tt
  Evolves-update_where p f (x ∷ xs) h = elim (Bool-cases (p x)) [
    | inl e ↦ rw e (h x e, Evolves-update_where p f xs h)
    | inr e ↦ rw e (idle x, Evolves-update_where p f xs h)
  ]

  pub Evolves-upsert :
      (c : Columns R) (p : R → Bool) (r r' : R) (xs : List R)
      → Unique c xs
      → find_first p xs ≡ some r
      → (c.base r').id ≡ (c.base r).id
      → Q r r'
      → Evolves Q xs (upsert c r' xs)
  Evolves-upsert c p r r' [] u h e q = tt
  Evolves-upsert c p r r' (x ∷ xs) u h e q = elim (Bool-cases (p x)) [
    | inl hit ↦
        (let same : r ≡ x = ground arith in
          let here : ((c.base x).id == (c.base r').id) ≡ true =
            rw (e, same) (==_refl (c.base x).id) in
          rw here (subst (λ z. Q z r') same q, Evolves-refl xs))
    | inr miss ↦
        (let there : find_first p xs ≡ some r = ground arith in
          let apart : (c.base r).id ≢ (c.base x).id =
            All-find_first (λ y. (c.base y).id ≢ (c.base x).id) p xs r u.0 there in
          let other : ((c.base x).id == (c.base r').id) ≡ false = ground arith in
          rw other (idle x, Evolves-upsert c p r r' xs u.1 there e q))
  ]

module _ {R : Type 0} (Q : R → R → Type 0) (chain : (x y z : R) → Q x y → Q y z → Q x z) where
  pub Evolves-trans : (xs ys zs : List R) → Evolves Q xs ys → Evolves Q ys zs → Evolves Q xs zs
  Evolves-trans [] ys zs h k = tt
  Evolves-trans (x ∷ xs) [] zs h k = absurd h
  Evolves-trans (x ∷ xs) (y ∷ ys) [] h k = absurd k
  Evolves-trans (x ∷ xs) (y ∷ ys) (z ∷ zs) h k =
      (chain x y z h.0 k.0, Evolves-trans xs ys zs h.1 k.1)
