-- ===== src/Addresses/Created.antt =====
-- A new address leaves no user with two defaults.
use go_order_lab.Prelude.{
  ℕ, ◌≤◌, ◌≡◌, refl, ap, sym, subst, ◌∙◌, false, arith, Result-cases, Bool-cases, inl, inr,
  if◌then◌else◌, ◌>>=◌, ◌>>◌,
}
use go_order_lab.Store.Rows.{count}
use go_order_lab.Env.{Env, World, create_address}
use go_order_lab.Env.Laws.{transaction-keeps}
use go_order_lab.Addresses.Rows.{default_of, one_if, append_one_more}
use go_order_lab.Addresses.{CreateAddressInput, new_address, clear_default, create_tx, create}
use go_order_lab.Addresses.Default.{OneDefault, Free, one_more, clear_default-Free}

module _ (E : Env) (user_id : ℕ) where
  create_address-OneDefault :
      (input : CreateAddressInput) (w : World E)
      → Free E user_id w.db
      → OneDefault E (create_address E (new_address user_id input) w).1.db
  create_address-OneDefault input w free v =
      let a = new_address user_id input in
      elim (Result-cases (E.addresses.create a w.db.addresses)) [
        | inr (e, refused) ↦ (let old = free.one v in ground (arith, old))
        | inl ((r, s), made) ↦
            (let (row, rows, _) = E.addresses.create_ok a w.db.addresses r s made in
              let more = append_one_more v r (E.addresses.rows w.db.addresses) in
              let all : count (default_of v) (E.addresses.rows s) ≤ 1 = rw rows (
                one_more E user_id r w.db v _ (ap (λ r. r.user_id) row) free
                  (let m = more in omega arith)) in
              ground (arith, all))
      ]

  create_address-OneDefault_plain :
      (input : CreateAddressInput) (w : World E)
      → input.is_default ≡ false
      → OneDefault E w.db
      → OneDefault E (create_address E (new_address user_id input) w).1.db
  create_address-OneDefault_plain input w plain h v =
      let a = new_address user_id input in
      elim (Result-cases (E.addresses.create a w.db.addresses)) [
        | inr (e, refused) ↦ (let old = h v in ground (arith, old))
        | inl ((r, s), made) ↦
            (let (row, rows, _) = E.addresses.create_ok a w.db.addresses r s made in
              let more = append_one_more v r (E.addresses.rows w.db.addresses) in
              let off : r.is_default ≡ false = ap (λ r. r.is_default) row ∙ plain in
              let same : one_if (default_of v r) ≡ 0 = ground arith in
              let all : count (default_of v) (E.addresses.rows s) ≤ 1 =
                rw rows (let m = more in let old = h v in omega arith) in
              ground (arith, all))
      ]

  -- Creating an address keeps it that each user has at most one default address.
  pub create-OneDefault :
      (input : CreateAddressInput) (w : World E)
      → OneDefault E w.db
      → OneDefault E (create E user_id input w).1.db
  unfolding create create_tx
  create-OneDefault input w h =
      transaction-keeps E (OneDefault E) (create_tx E user_id input) w h (λ r done.
        elim (Bool-cases input.is_default) [
          | inr plain ↦
              (let last : create_tx E user_id input w
                    ≡ create_address E (new_address user_id input) w =
                  rw (create_tx, plain) refl in
                subst (λ m. OneDefault E m.1.db) (sym last)
                  (create_address-OneDefault_plain input w plain h))
          | inl wanted ↦ elim (Result-cases (clear_default E user_id w).0) [
            | inr (e, failed) ↦ absurd (ground arith)
            | inl (n, e) ↦
                (let new = create_address E (new_address user_id input) in
                  let step : (clear_default E user_id >> new) w
                      ≡ new (clear_default E user_id w).1 =
                    rw (◌>>=◌, e) refl in
                  let last : create_tx E user_id input w ≡ new (clear_default E user_id w).1 =
                    ap (λ b. if b then (clear_default E user_id >> new) w else new w) wanted
                    ∙ step in
                  subst (λ m. OneDefault E m.1.db) (sym last)
                    (create_address-OneDefault input _ (clear_default-Free E user_id w n e h)))
          ]
        ])
