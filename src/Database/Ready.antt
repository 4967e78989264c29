-- ===== src/Database/Ready.antt =====
-- The rows after the writes of `Open` in internal/database/database.go.
use go_order_lab.Prelude.{
  ℕ, ◌≡◌, refl, sym, ◌∙◌, subst, Bool, false, List, [], ◌∷◌, ok, arith, Result-cases, Bool-cases,
  inl, inr, ◌>>◌, pure, if◌then◌else◌,
}
use go_order_lab.Store.Rows.{All, update_where}
use go_order_lab.Env.{Env, Db, World, put_activities, put_users}
use go_order_lab.Database.{
  lacks_status, lacks_role, published_now, user_now, backfill_activity_order_keys, fill_statuses,
  fill_roles, fill_rows,
}
use go_order_lab.Database.Keys.{KeysOwn, HasOwnKey, then_ok, execute_ok, backfill-HasOwnKey}

none_left :
    {R : Type 0} (p : R → Bool) (f : R → R) (xs : List R)
    → ((x : R) → p (f x) ≡ false)
    → All (λ x. p x ≡ false) (update_where p f xs)
none_left p f [] out = tt
none_left p f (x ∷ xs) out = elim (Bool-cases (p x)) [
  | inl e ↦ rw e (out x, none_left p f xs out)
  | inr e ↦ (subst (λ b. p (if b then f x else x) ≡ false) (sym e) e, none_left p f xs out)
]

module _ (E : Env) where
  pub record Ready (d : Db E) : Type 0 where
    pub keys : All HasOwnKey (E.orders.rows d.orders)
    pub statuses : All (λ a. lacks_status a ≡ false) (E.activities.rows d.activities)
    pub roles : All (λ u. lacks_role u ≡ false) (E.users.rows d.users)

  fill_rows_lem :
      (w : World E) (u : Unit {0}) (m n : ℕ) (s : E.activities.State) (t : E.users.State)
      → (backfill_activity_order_keys E w).0 ≡ ok u
      → E.activities.update lacks_status published_now
          (backfill_activity_order_keys E w).1.db.activities
        ≡ ok (m, s)
      → E.users.update lacks_role user_now (backfill_activity_order_keys E w).1.db.users ≡ ok (n, t)
      → fill_rows E w
        ≡ (ok tt, put_users E t (put_activities E s (backfill_activity_order_keys E w).1))
  unfolding fill_rows fill_statuses fill_roles
  fill_rows_lem w u m n s t keyed given named =
      let v = (backfill_activity_order_keys E w).1 in
      let keys = backfill_activity_order_keys E in
      let first : keys w ≡ (ok u, v) = λ i. (keyed i, v) in
      let second : (keys >> fill_statuses E) w ≡ (ok m, put_activities E s v) =
        then_ok keys (fill_statuses E) w v u first
        ∙ execute_ok (λ w. E.activities.update lacks_status published_now w.db.activities)
            (put_activities E) v m s given in
      let third : (keys >> fill_statuses E >> fill_roles E) w
          ≡ (ok n, put_users E t (put_activities E s v)) =
        then_ok (keys >> fill_statuses E) (fill_roles E) w (put_activities E s v) m second
        ∙ execute_ok (λ w. E.users.update lacks_role user_now w.db.users) (put_users E)
            (put_activities E s v) n t named in
      then_ok (keys >> fill_statuses E >> fill_roles E) (pure tt) w _ n third

  Ready-start :
      (w : World E)
      → All KeysOwn (E.orders.rows w.db.orders)
      → (u : Unit {0}) (m n : ℕ) (s : E.activities.State) (t : E.users.State)
      → (backfill_activity_order_keys E w).0 ≡ ok u
      → E.activities.update lacks_status published_now
          (backfill_activity_order_keys E w).1.db.activities
        ≡ ok (m, s)
      → E.users.update lacks_role user_now (backfill_activity_order_keys E w).1.db.users ≡ ok (n, t)
      → Ready (fill_rows E w).1.db
  Ready-start w own u m n s t keyed given named =
      let v = (backfill_activity_order_keys E w).1 in
      subst (λ m. Ready m.1.db) (sym (fill_rows_lem w u m n s t keyed given named))
        (record {
          keys = backfill-HasOwnKey E w own keyed;
          statuses =
              subst (All (λ a. lacks_status a ≡ false))
                (sym (E.activities.update_ok lacks_status published_now v.db.activities m s given))
                (none_left lacks_status _ (E.activities.rows v.db.activities) (λ a. refl));
          roles =
              subst (All (λ r. lacks_role r ≡ false))
                (sym (E.users.update_ok lacks_role user_now v.db.users n t named))
                (none_left lacks_role _ (E.users.rows v.db.users) (λ r. refl));
        })

  -- Where the keys that are there are the orders' own, the writes of a start, when they report no error,
  -- leave each order of a user and an activity with its key, no activity without a status and no user
  -- without a role.
  pub fill_rows-Ready :
      (w : World E)
      → All KeysOwn (E.orders.rows w.db.orders)
      → (fill_rows E w).0 ≡ ok tt
      → Ready (fill_rows E w).1.db
  unfolding fill_rows fill_statuses fill_roles
  fill_rows-Ready w own done = elim (Result-cases (backfill_activity_order_keys E w).0) [
    | inr (e, failed) ↦ absurd (ground arith)
    | inl (u, keyed) ↦
        (let v = (backfill_activity_order_keys E w).1 in
          elim (Result-cases (E.activities.update lacks_status published_now v.db.activities)) [
            | inr (e, failed) ↦ absurd (ground arith)
            | inl ((m, s), given) ↦
                elim (Result-cases (E.users.update lacks_role user_now v.db.users)) [
                  | inr (e, failed) ↦ absurd (ground arith)
                  | inl ((n, t), named) ↦ Ready-start w own u m n s t keyed given named
                ]
          ])
  ]
