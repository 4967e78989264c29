-- ===== src/Addresses/Default.antt =====
-- No user ever has two default addresses.
use go_order_lab.Prelude.{
  ℕ, ◌+◌, ◌≤◌, ◌≡◌, refl, ap, sym, subst, ◌∙◌, true, ok, [], ◌∷◌, arith, ◌==◌, ==_iff, Result-cases,
  Bool-cases, inl, inr,
}
use go_order_lab.Store.Rows.{select, count, upsert, find_first-holds, stamp}
use go_order_lab.Model.{Address, address_columns}
use go_order_lab.Env.{Env, Db, World}
use go_order_lab.Env.Laws.{transaction-keeps, transaction_ok}
use go_order_lab.Orders.Checkout.{owns_address}
use go_order_lab.Addresses.Rows.{
  default_of, one_if, cleared, cleared_none, cleared_fewer, upsert_one_more, upsert_only,
}
use go_order_lab.Addresses.{
  address_of, no_default, clear_default, save_default, set_default_tx, set_default,
}

module _ (E : Env) where
  abbrev pub defaults : ℕ → Db E → ℕ
  defaults v d = count (default_of v) (E.addresses.rows d.addresses)

  -- Each user has at most one default address.
  abbrev pub OneDefault : Db E → Type 0
  OneDefault d = (v : ℕ) → defaults v d ≤ 1

  module _ (user_id : ℕ) where
    -- `OneDefault` with the place of the user's default free.
    pub record Free (d : Db E) : Type 0 where
      pub none_own : defaults user_id d ≡ 0
      pub one : OneDefault d

    pub clear_default-Free :
        (w : World E) (n : ℕ)
        → (clear_default E user_id w).0 ≡ ok n
        → OneDefault w.db
        → Free (clear_default E user_id w).1.db
    unfolding clear_default
    clear_default-Free w n done h =
        elim (Result-cases (E.addresses.update (address_of user_id) no_default w.db.addresses)) [
          | inr (e, failed) ↦ absurd (ground arith)
          | inl ((m, s), updated) ↦
              (let t = E.addresses.clock w.db.addresses in
                let xs = E.addresses.rows w.db.addresses in
                let rows : E.addresses.rows s ≡ cleared user_id t xs =
                  E.addresses.update_ok (address_of user_id) no_default w.db.addresses m s
                    updated in
                let last : (clear_default E user_id w).1.db.addresses ≡ s = ground arith in
                record {
                  none_own = rw (last, rows) (cleared_none user_id t xs);
                  one = λ v.
                      rw (last, rows)
                        (let fewer = cleared_fewer user_id t v xs in let old = h v in omega arith);
                })
        ]

    -- A row of the user may become a default while that place is free.
    pub one_more :
        (a : Address) (d : Db E) (v k : ℕ)
        → a.user_id ≡ user_id
        → Free d
        → k ≤ defaults v d + one_if (default_of v a)
        → k ≤ 1
    one_more a d v k mine free more = elim (Bool-cases (default_of v a)) [
      | inl hit ↦
          (let same : v ≡ user_id = ground (arith, ==_iff a.user_id v) in
            let zero : defaults v d ≡ 0 = rw same free.none_own in ground (arith, zero))
      | inr miss ↦ (let old = free.one v in ground (arith, old))
    ]

    -- The user's defaults after `b` is saved while the place is free.
    saved_only :
        (b : Address) (d : Db E) (s : E.addresses.State)
        → (b.user_id == user_id) ≡ true
        → b.is_default ≡ true
        → Free d
        → E.addresses.rows s ≡ upsert address_columns b (E.addresses.rows d.addresses)
        → ((v : ℕ) → count (default_of v) (E.addresses.rows s) ≤ 1)
          × (select (default_of user_id) (E.addresses.rows s) ≡ b ∷ [])
    saved_only b d s mine on free rows =
        let xs = E.addresses.rows d.addresses in
        let user : b.user_id ≡ user_id = ground (arith, ==_iff b.user_id user_id) in
        (
          (λ v.
              subst (λ ys. count (default_of v) ys ≤ 1) (sym rows)
                (one_more b d v _ user free (upsert_one_more v b xs))),
          ap (select (default_of user_id)) rows
              ∙ upsert_only user_id b xs free.none_own (rw (mine, on) refl),
        )

    set_default_tx_only :
        (address_id : ℕ) (w : World E) (r : Address)
        → (set_default_tx E user_id address_id w).0 ≡ ok r
        → OneDefault w.db
        → OneDefault (set_default_tx E user_id address_id w).1.db
          × (select
                (default_of user_id)
                (E.addresses.rows (set_default_tx E user_id address_id w).1.db.addresses)
              ≡ r ∷ [])
    unfolding set_default_tx save_default
    set_default_tx_only address_id w r done h =
        let own = owns_address address_id user_id in
        elim (Result-cases (E.addresses.first own w.db.addresses)) [
          | inr (e, missing) ↦ absurd (ground arith)
          | inl (a, found) ↦
              (let mine : own a ≡ true =
                  find_first-holds own (E.addresses.rows w.db.addresses) a
                    (E.addresses.first_ok own w.db.addresses a found) in
                elim (Result-cases (clear_default E user_id w).0) [
                  | inr (e, failed) ↦ absurd (ground arith)
                  | inl (n, off) ↦
                      (let w' = (clear_default E user_id w).1 in
                        let a' : Address = record a { is_default = true } in
                        let free = clear_default-Free w n off h in
                        elim (Result-cases (E.addresses.save a' w'.db.addresses)) [
                          | inr (e, failed) ↦ absurd (ground arith)
                          | inl ((u, s), saved) ↦
                              (let b =
                                  stamp address_columns (E.addresses.clock w'.db.addresses) a' in
                                let rows = E.addresses.save_ok a' w'.db.addresses s saved in
                                let same : b ≡ r = ground arith in
                                let last : (set_default_tx E user_id address_id w).1.db.addresses
                                    ≡ s =
                                  ground arith in
                                let user : (a.user_id == user_id) ≡ true = ground arith in
                                let (one, only) = saved_only b w'.db s user refl free rows in
                                (
                                  (λ v.
                                      subst (λ t. count (default_of v) (E.addresses.rows t) ≤ 1)
                                        (sym last) (one v)),
                                  subst
                                      (λ t.
                                        select (default_of user_id) (E.addresses.rows t) ≡ r ∷ [])
                                      (sym last) (only ∙ ap (λ x. x ∷ []) same),
                                ))
                        ])
                ])
        ]

    -- Setting a default address keeps it that each user has at most one default address.
    pub set_default-OneDefault :
        (address_id : ℕ) (w : World E)
        → OneDefault w.db
        → OneDefault (set_default E user_id address_id w).1.db
    unfolding set_default
    set_default-OneDefault address_id w h =
        transaction-keeps E OneDefault (set_default_tx E user_id address_id) w h
          (λ r done. (set_default_tx_only address_id w r done h).0)

    -- When each user has at most one default address, a call that sets a default and reports no error
    -- leaves the address that it returns as the user's only default address.
    pub set_default-only :
        (address_id : ℕ) (w : World E) (r : Address)
        → (set_default E user_id address_id w).0 ≡ ok r
        → OneDefault w.db
        → select
            (default_of user_id)
            (E.addresses.rows (set_default E user_id address_id w).1.db.addresses)
          ≡ r ∷ []
    unfolding set_default
    set_default-only address_id w r h one =
        let (done, last) = transaction_ok E (set_default_tx E user_id address_id) w r h in
        ap (λ m. select (default_of user_id) (E.addresses.rows m.db.addresses)) last
        ∙ (set_default_tx_only address_id w r done one).1
