-- ===== src/Store/Memory.antt =====
-- A table in memory that behaves as documented: it shows that the interface can be met, and runs in
-- the tests. A broken one fails every call.
use go_order_lab.Prelude.{
  ℕ, suc, ◌<◌, ◌≡◌, ◌≢◌, refl, Bool, true, false, ◌&&◌, not, some, none, List, [], ◌∷◌, ◌++◌,
  Result, ok, err, record_not_found, failure, ℤ, arith, ◌==◌, ltb, if◌then◌else◌, Bool-cases, inl,
  inr, codes, Error, ◌⊎◌, ap, ◌∙◌, sym,
}
use go_order_lab.Store.Rows.{
  Columns, find_first, select, update_where, delete_where, any, count, All, upsert, Unique, stamp,
  stamp_new,
}
use go_order_lab.Store.Sums.{sum_by}
use go_order_lab.Store.Table.{Table}

module _ {R : Type 0} (c : Columns R) where
  open c use {base}

  abbrev pub without : ℕ → List R → Bool
  without k [] = true
  without k (x ∷ xs) = not ((base x).id == k) && without k xs

  -- Primary keys are unique and not 0.
  abbrev pub is_keyed : List R → Bool
  is_keyed [] = true
  is_keyed (x ∷ xs) = ltb 0 (base x).id && (without (base x).id xs && is_keyed xs)

  without-All : (k : ℕ) (xs : List R) → without k xs ≡ true → All (λ y. (base y).id ≢ k) xs
  without-All k [] h = tt
  without-All k (x ∷ xs) h = (ground arith, without-All k xs (ground arith))

  pub is_keyed-Unique : (xs : List R) → is_keyed xs ≡ true → Unique c xs
  is_keyed-Unique [] h = tt
  is_keyed-Unique (x ∷ xs) h =
      (without-All (base x).id xs (ground arith), is_keyed-Unique xs (ground arith))

  pub is_keyed-pos : (xs : List R) → is_keyed xs ≡ true → All (λ r. 0 < (base r).id) xs
  is_keyed-pos [] h = tt
  is_keyed-pos (x ∷ xs) h = (ground arith, is_keyed-pos xs (ground arith))

  pub record Memory : Type 0 where
    pub content : List R
    pub keyed : is_keyed content ≡ true
    pub now : ℤ
    pub next : ℕ
    pub broken : Bool

  abbrev pub refusal : Error
  refusal = failure (codes "constraint failed")

  abbrev pub keep :
      {A : Type 0} (a : A) (xs : List R) (s : Memory)
      → (is_keyed xs ≡ true) ⊎ (is_keyed xs ≡ false)
      → Result (A × Memory)
  keep a xs s (inl h) = ok (a, record s { content = xs; keyed = h; next = suc s.next })
  keep a xs s (inr _) = err refusal

  -- What a statement leaves, if the table is whole and the keys stay unique.
  abbrev pub store : {A : Type 0} → A → List R → Memory → Result (A × Memory)
  store a xs s = if s.broken then err refusal else keep a xs s (Bool-cases (is_keyed xs))

  keep_ok :
      {A : Type 0} (a : A) (xs : List R) (s : Memory)
      (d : (is_keyed xs ≡ true) ⊎ (is_keyed xs ≡ false)) (a' : A) (s' : Memory)
      → keep a xs s d ≡ ok (a', s')
      → (s'.content ≡ xs) × (a' ≡ a)
  keep_ok a xs s (inl h) a' s' e = (ground arith, ground arith)
  keep_ok a xs s (inr h) a' s' e = cc

  gate_ok :
      {A : Type 0} (b : Bool) (a : A) (xs : List R) (s : Memory) (a' : A) (s' : Memory)
      → (if b then err refusal else keep a xs s (Bool-cases (is_keyed xs))) ≡ ok (a', s')
      → (s'.content ≡ xs) × (a' ≡ a)
  gate_ok true a xs s a' s' e = cc
  gate_ok false a xs s a' s' e = keep_ok a xs s (Bool-cases (is_keyed xs)) a' s' e

  pub store_ok :
      {A : Type 0} (a : A) (xs : List R) (s : Memory) (a' : A) (s' : Memory)
      → store a xs s ≡ ok (a', s')
      → (s'.content ≡ xs) × (a' ≡ a)
  store_ok a xs s a' s' e = gate_ok s.broken a xs s a' s' e

  pub any_of_count : (p : R → Bool) (xs : List R) → 0 < count p xs → any p xs ≡ true
  any_of_count p [] h = absurd (omega arith)
  any_of_count p (x ∷ xs) h = ground (arith, any_of_count p xs)

  pub update_where_none :
      (p : R → Bool) (f : R → R) (xs : List R) → count p xs ≡ 0 → update_where p f xs ≡ xs
  update_where_none p f [] h = refl
  update_where_none p f (x ∷ xs) h = ground (arith, update_where_none p f xs)

  abbrev pub lookup_first : (R → Bool) → Memory → Result R
  lookup_first p s =
      if s.broken
      then err refusal
      else elim (find_first p s.content) [ none ↦ err record_not_found | some r ↦ ok r ]

  abbrev pub insert : R → Memory → Result (R × Memory)
  insert r s =
      let r' = stamp_new c s.next s.now r in
      if any (c.conflict r) s.content then err refusal else store r' (s.content ++ r' ∷ []) s

  refused : {A : Type 0} {a : A} → ◌≡◌ {A = Result A} (err refusal) (ok a) → ⊥
  refused e = cc

  pub first_ok_lem :
      (p : R → Bool) (s : Memory) (r : R)
      → lookup_first p s ≡ ok r
      → find_first p s.content ≡ some r
  first_ok_lem p s r e = ground arith

  pub first_missing_lem :
      (p : R → Bool) (s : Memory)
      → lookup_first p s ≡ err record_not_found
      → find_first p s.content ≡ none
  first_missing_lem p s e = ground arith

  -- A read that the table answers.
  abbrev pub answer : {A : Type 0} → A → Memory → Result A
  answer a s = if s.broken then err refusal else ok a

  pub answer_ok : {A : Type 0} (a : A) (s : Memory) (a' : A) → answer a s ≡ ok a' → a' ≡ a
  answer_ok a s a' e = ground arith

  pub insert_ok :
      (r : R) (s : Memory) (r' : R) (s' : Memory)
      → insert r s ≡ ok (r', s')
      → (r' ≡ stamp_new c (base r').id s.now r)
        × (s'.content ≡ s.content ++ r' ∷ [])
        × (any (c.conflict r) s.content ≡ false)
  insert_ok r s r' s' e = elim (Bool-cases (any (c.conflict r) s.content)) [
    | inl hit ↦ absurd (refused (rw hit at e))
    | inr free ↦
        (let new = stamp_new c s.next s.now r in
          let (rows, row) = store_ok new (s.content ++ new ∷ []) s r' s' (rw free at e) in
          let key : (base new).id ≡ s.next = ap (λ b. b.id) (c.base-set_base _ r) in
          (rw (row, key), rw (rows, row), free))
  ]

  abbrev pub memory : Table c
  memory = record {
    State = Memory;
    rows = λ s. s.content;
    clock = λ s. s.now;
    first = lookup_first;
    find = λ p s. answer (select p s.content) s;
    count_where = λ p s. answer (count p s.content) s;
    sum_where = λ p f s. answer (sum_by f (select p s.content)) s;
    save = λ r s. store tt (upsert c (stamp c s.now r) s.content) s;
    create = insert;
    update =
        λ p f s. store (count p s.content) (update_where p (λ r. stamp c s.now (f r)) s.content) s;
    update_column = λ p f s. store (count p s.content) (update_where p f s.content) s;
    delete = λ p s. store tt (delete_where p s.content) s;
    unique = λ s. is_keyed-Unique s.content s.keyed;
    id_pos = λ s. is_keyed-pos s.content s.keyed;
    first_ok = first_ok_lem;
    first_missing = first_missing_lem;
    find_ok = λ p s. answer_ok (select p s.content) s;
    count_ok = λ p s. answer_ok (count p s.content) s;
    sum_ok = λ p f s. answer_ok (sum_by f (select p s.content)) s;
    save_ok = λ r s s' e. (store_ok tt _ s tt s' e).0;
    create_ok = insert_ok;
    update_ok = λ p f s n s' e. (store_ok _ _ s n s' e).0;
    update_column_ok = λ p f s n s' e. (store_ok _ _ s n s' e).0;
    affected_some = λ p f s n s' e h. any_of_count p s.content (rw (store_ok _ _ s n s' e).1 at h);
    affected_none = λ p f s s' e.
        (store_ok _ _ s 0 s' e).0 ∙ update_where_none p f s.content (sym (store_ok _ _ s 0 s' e).1);
    delete_ok = λ p s s' e. (store_ok tt _ s tt s' e).0;
  }
