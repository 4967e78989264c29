-- ===== src/Database/Keys.antt =====
-- The keys that `backfillActivityOrderKeys` of internal/database/database.go gives to the orders.
use go_order_lab.Prelude.{
  ℕ, ◌≡◌, refl, sym, ap, subst, ◌∙◌, Bool, true, false, none, some, List, [], ◌∷◌, ok, arith,
  Result-cases, Option-cases, Bool-cases, inl, inr, ◌⊎◌, ==_iff, Text, ltb, ℤ, ◌>>◌, execute, pure,
  Action, Result, err,
}
use go_order_lab.Store.Rows.{has_id, All, All-select, select, update_where, Unique, stamp}
use go_order_lab.Model.{Order, order_columns, new_activity_order_key}
use go_order_lab.Env.{Env, World, for_each, put_orders}
use go_order_lab.Database.{
  is_empty_key, lacks_key, with_key, set_key, give, give_key, backfill_activity_order_keys,
}

-- An order of a user and an activity has the key of the two.
abbrev pub HasOwnKey : Order → Type 0
HasOwnKey o =
    (key : Text)
    → new_activity_order_key o.user_id o.activity_id ≡ some key
    → o.activity_order_key ≡ some key

abbrev Among : Order → List Order → Type 0
Among r [] = ⊥
Among r (o ∷ os) = (r ≡ o) ⊎ Among r os

-- What is known of a row while the orders `os` are left: the one with its key among them is of its
-- user and activity, and it is among them or has its own key.
record Pending (os : List Order) (r : Order) : Type 0 where
  owners : All (λ o. r.id ≡ o.id → (r.user_id ≡ o.user_id) × (r.activity_id ≡ o.activity_id)) os
  state : Among r os ⊎ HasOwnKey r

All-update_where :
    {P Q : Order → Type 0} (p : Order → Bool) (f : Order → Order) (xs : List Order)
    → ((x : Order) → p x ≡ true → P x → Q (f x))
    → ((x : Order) → p x ≡ false → P x → Q x)
    → All P xs
    → All Q (update_where p f xs)
All-update_where p f [] hit miss h = tt
All-update_where p f (x ∷ xs) hit miss h = elim (Bool-cases (p x)) [
  | inl e ↦ rw e (hit x e h.0, All-update_where p f xs hit miss h.1)
  | inr e ↦ rw e (miss x e h.0, All-update_where p f xs hit miss h.1)
]

All-both :
    {P Q U : Order → Type 0} (xs : List Order)
    → ((x : Order) → P x → Q x → U x)
    → All P xs
    → All Q xs
    → All U xs
All-both [] f h k = tt
All-both (x ∷ xs) f h k = (f x h.0 k.0, All-both xs f h.1 k.1)

All-always : {P : Order → Type 0} (xs : List Order) → ((x : Order) → P x) → All P xs
All-always [] f = tt
All-always (x ∷ xs) f = (f x, All-always xs f)

-- In a table, rows with one primary key are one row.
one_by_id :
    (xs : List Order) → Unique order_columns xs → All (λ r. All (λ o. r.id ≡ o.id → r ≡ o) xs) xs
one_by_id [] u = tt
one_by_id (x ∷ xs) u = (
  (λ _. refl, All-both xs (λ o apart _ e. absurd (apart (sym e))) u.0 u.0),
  All-both xs (λ r apart rest. (λ e. absurd (apart e), rest)) u.0 (one_by_id xs u.1),
)

Among-later :
    (p : Order → Bool) (x r : Order) (xs : List Order)
    → Among r (select p xs)
    → Among r (select p (x ∷ xs))
Among-later p x r xs h = elim (Bool-cases (p x)) [ inl e ↦ rw e (inr h) | inr e ↦ rw e h ]

selected-Among :
    (p : Order → Bool) (xs : List Order) → All (λ r. p r ≡ true → Among r (select p xs)) xs
selected-Among p [] = tt
selected-Among p (x ∷ xs) =
    let rest = selected-Among p xs in
    ((λ e. rw e (inl refl)), All-both xs (λ r h _ q. Among-later p x r xs (h q)) rest rest)

abbrev pub KeysOwn : Order → Type 0
KeysOwn r = is_empty_key r.activity_order_key ≡ false → HasOwnKey r

first-Pending :
    (xs : List Order) (r : Order)
    → All (λ o. r.id ≡ o.id → r ≡ o) xs
    → (lacks_key r ≡ true → Among r (select lacks_key xs))
    → KeysOwn r
    → Pending (select lacks_key xs) r
unfolding new_activity_order_key
first-Pending xs r same there mine = record {
  owners = All-select _ lacks_key xs (
      All-both xs (λ o e _ q. (ap (λ x. x.user_id) (e q), ap (λ x. x.activity_id) (e q))) same
        same);
  state = elim (Bool-cases (is_empty_key r.activity_order_key)) [
    | inr full ↦ inr (mine full)
    | inl empty ↦ elim (Bool-cases (ltb 0 r.activity_id)) [
      | inl some_of ↦ inl (there (rw (some_of, empty) refl))
      | inr none_of ↦ inr (λ key k. absurd (ground arith))
    ]
  ];
}

selected-Pending :
    (xs : List Order)
    → Unique order_columns xs
    → All KeysOwn xs
    → All (Pending (select lacks_key xs)) xs
selected-Pending xs u own =
    All-both xs (λ r start mine. start mine)
      (All-both xs (first-Pending xs) (one_by_id xs u) (selected-Among lacks_key xs)) own

pub then_ok :
    {S A B : Type 0} (m : Action S A) (k : Action S B) (s t : S) (a : A)
    → m s ≡ (ok a, t)
    → (m >> k) s ≡ k t
then_ok m k s t a e = ap (λ r. elim (r.0) [ ok _ ↦ k r.1 | err x ↦ (err x, r.1) ]) e

pub execute_ok :
    {S T A : Type 0} (f : S → Result (A × T)) (put : T → S → S) (s : S) (a : A) (t : T)
    → f s ≡ ok (a, t)
    → execute f put s ≡ (ok a, put t s)
execute_ok f put s a t e = ap (λ r. elim r [ ok (a, t) ↦ (ok a, put t s) | err x ↦ (err x, s) ]) e

module _ (E : Env) where
  abbrev orders_of : World E → List Order
  orders_of w = E.orders.rows w.db.orders

  none_given :
      (o : Order) (os xs : List Order)
      → new_activity_order_key o.user_id o.activity_id ≡ none
      → All (Pending (o ∷ os)) xs
      → All (Pending os) xs
  none_given o os xs keyless h =
      All-both xs
        (λ r p _. record {
          owners = p.owners.1;
          state = elim (p.state) [
            | inr own ↦ inr own
            | inl (inr later) ↦ inl later
            | inl (inl e) ↦ inr (λ key k. absurd (
                let q : new_activity_order_key o.user_id o.activity_id ≡ some key =
                  subst (λ x. new_activity_order_key x.user_id x.activity_id ≡ some key) e k in
                let z = sym keyless ∙ q in cc))
          ];
        })
        h h

  key_given :
      (o : Order) (os xs : List Order) (key : Text) (now : ℤ)
      → new_activity_order_key o.user_id o.activity_id ≡ some key
      → All (Pending (o ∷ os)) xs
      → All (Pending os) (
          update_where
            (has_id order_columns o.id)
            (λ r. stamp order_columns now (with_key key r))
            xs)
  key_given o os xs key now made h =
      All-update_where (has_id order_columns o.id) _ xs
        (λ r hit p. record {
          owners = p.owners.1;
          state = inr (λ key' k.
              let (u, a) = p.owners.0 ((==_iff r.id o.id).0 hit) in
              sym made
              ∙ ap (λ i. new_activity_order_key i o.activity_id) (sym u)
              ∙ ap (λ i. new_activity_order_key r.user_id i) (sym a)
              ∙ k);
        })
        (λ r miss p. record {
          owners = p.owners.1;
          state = elim (p.state) [
            | inr own ↦ inr own
            | inl (inr later) ↦ inl later
            | inl (inl e) ↦ absurd (let q = (==_iff r.id o.id).1 (ap (λ x. x.id) e) in cc)
          ];
        })
        h

  give_ok :
      (id : ℕ) (key : Text) (w : World E) (n : ℕ) (s : E.orders.State)
      → E.orders.update (has_id order_columns id) (with_key key) w.db.orders ≡ ok (n, s)
      → give E id (some key) w ≡ (ok tt, put_orders E s w)
  give_ok id key w n s changed = then_ok (set_key E id key) (pure tt) w (put_orders E s w) n (
      execute_ok (λ w. E.orders.update (has_id order_columns id) (with_key key) w.db.orders)
        (put_orders E) w n s changed)

  give_all :
      (os : List Order) (w : World E)
      → All (Pending os) (orders_of w)
      → (for_each (give_key E) os w).0 ≡ ok tt
      → All HasOwnKey (orders_of (for_each (give_key E) os w).1)
  give_all [] w h done =
      All-both (orders_of w)
        (λ r p _. elim (p.state) [ inl missing ↦ absurd missing | inr own ↦ own ]) h h
  give_all (o ∷ os) w h done =
      elim (Option-cases (new_activity_order_key o.user_id o.activity_id)) [
        | inl keyless ↦
            (let same : for_each (give_key E) (o ∷ os) w ≡ for_each (give_key E) os w =
                rw keyless refl in
              subst (λ m. All HasOwnKey (orders_of m.1)) (sym same)
                (give_all os w (none_given o os (orders_of w) keyless h)
                  (sym (ap (λ m. m.0) same) ∙ done)))
        | inr (key, made) ↦
            elim (Result-cases
              (E.orders.update (has_id order_columns o.id) (with_key key) w.db.orders)) [
                | inr (e, failed) ↦ absurd (ground arith)
                | inl ((n, s), changed) ↦
                    (let same : for_each (give_key E) (o ∷ os) w
                          ≡ for_each (give_key E) os (put_orders E s w) =
                        then_ok (give_key E o) (for_each (give_key E) os) w (put_orders E s w) tt
                          (ap (λ k. give E o.id k w) made ∙ give_ok o.id key w n s changed) in
                      let rows = E.orders.update_ok _ (with_key key) w.db.orders n s changed in
                      let next =
                        key_given o os (orders_of w) key (E.orders.clock w.db.orders) made h in
                      subst (λ m. All HasOwnKey (orders_of m.1)) (sym same)
                        (give_all os (put_orders E s w) (subst (All (Pending os)) (sym rows) next)
                          (sym (ap (λ m. m.0) same) ∙ done)))
              ]
      ]

  -- Where the keys that are there are the orders' own, and the backfill reports no error, each order of
  -- a user and an activity has its key.
  pub backfill-HasOwnKey :
      (w : World E)
      → All KeysOwn (orders_of w)
      → (backfill_activity_order_keys E w).0 ≡ ok tt
      → All HasOwnKey (orders_of (backfill_activity_order_keys E w).1)
  unfolding backfill_activity_order_keys
  backfill-HasOwnKey w own done = elim (Result-cases (E.orders.find lacks_key w.db.orders)) [
    | inr (e, failed) ↦ absurd (ground arith)
    | inl (os, found) ↦
        (let same : backfill_activity_order_keys E w ≡ for_each (give_key E) os w =
            rw (backfill_activity_order_keys, found) refl in
          let read = E.orders.find_ok lacks_key w.db.orders os found in
          let start =
            subst (λ z. All (Pending z) (orders_of w)) (sym read)
              (selected-Pending (orders_of w) (E.orders.unique w.db.orders) own) in
          subst (λ m. All HasOwnKey (orders_of m.1)) (sym same)
            (give_all os w start (sym (ap (λ m. m.0) same) ∙ done)))
  ]
