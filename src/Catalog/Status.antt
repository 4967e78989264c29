-- ===== src/Catalog/Status.antt =====
-- `UpdateActivityStatus` of internal/service/catalog.go, whose read and write are two statements.
use go_order_lab.Prelude.{
  ℕ, ◌≡◌, refl, sym, ap, subst, ◌∙◌, true, false, some, List, [], ◌∷◌, ok, arith, Result-cases,
  Bool-cases, inl, inr, ◌==◌, ==_iff, Option,
}
use go_order_lab.Store.Rows.{has_id, find_first, find_first-holds, upsert, stamp}
use go_order_lab.Model.{Activity, activity_columns, ActivityStatus, is_valid_activity_status}
use go_order_lab.Env.{Env, World}
use go_order_lab.Catalog.{write_status, update_activity_status}

find_first-upsert :
    (k : ℕ) (r : Activity) (xs : List Activity)
    → r.id ≡ k
    → find_first (has_id activity_columns k) (upsert activity_columns r xs) ≡ some r
find_first-upsert k r [] own = ground (arith, ==_iff r.id k)
find_first-upsert k r (x ∷ xs) own =
    ground (arith, find_first-upsert k r xs own, ==_iff r.id k, ==_iff x.id k, ==_iff x.id r.id)

find_first-upsert_other :
    (j : ℕ) (r : Activity) (xs : List Activity)
    → (r.id == j) ≡ false
    → find_first (has_id activity_columns j) (upsert activity_columns r xs)
      ≡ find_first (has_id activity_columns j) xs
find_first-upsert_other j r [] other = ground arith
find_first-upsert_other j r (x ∷ xs) other =
    ground (arith, find_first-upsert_other j r xs other, ==_iff x.id r.id)

module _ (E : Env) where
  abbrev pub activity_at : ℕ → World E → Option Activity
  activity_at k w = find_first (has_id activity_columns k) (E.activities.rows w.db.activities)

  write_status_lem :
      (read : Activity) (status : ActivityStatus) (w : World E) (a : Activity)
      → (write_status E read status w).0 ≡ ok a
      → (a
          ≡ stamp activity_columns
              (E.activities.clock w.db.activities)
              (record read { status = status }))
        × (activity_at read.id (write_status E read status w).1 ≡ some a)
        × ((j : ℕ)
            → (read.id == j) ≡ false
            → activity_at j (write_status E read status w).1 ≡ activity_at j w)
  unfolding write_status
  write_status_lem read status w a done =
      let r : Activity = record read { status = status } in
      let xs = E.activities.rows w.db.activities in
      elim (Result-cases (E.activities.save r w.db.activities)) [
        | inr (e, failed) ↦ absurd (ground arith)
        | inl ((u, s), saved) ↦
            (let b = stamp activity_columns (E.activities.clock w.db.activities) r in
              let own : b ≡ a = ground arith in
              let last : (write_status E read status w).1.db.activities ≡ s = ground arith in
              let rows =
                ap E.activities.rows last ∙ E.activities.save_ok r w.db.activities s saved in
              (
                sym own,
                ap (find_first (has_id activity_columns read.id)) rows
                    ∙ find_first-upsert read.id b xs refl
                    ∙ ap some own,
                λ j other.
                    ap (find_first (has_id activity_columns j)) rows
                    ∙ find_first-upsert_other j b xs other,
              ))
      ]

  -- The second half of a change of status, when it reports no error, puts back every other column as it
  -- was read, whatever happened to the row since the read: the stock is that of the read.
  pub write_status-stale :
      (read : Activity) (status : ActivityStatus) (w : World E) (a : Activity)
      → (write_status E read status w).0 ≡ ok a
      → (activity_at read.id (write_status E read status w).1 ≡ some a)
        × (a.stock ≡ read.stock)
        × (a.status ≡ status)
  write_status-stale read status w a done =
      let (shape, here, others) = write_status_lem read status w a done in
      (here, ap (λ x. x.stock) shape, ap (λ x. x.status) shape)

  -- A change of status that reports no error was to a known status, of an activity in the table, and
  -- changes its status and the time of its update only; it leaves all other activities as they are.
  pub update_activity_status_lem :
      (k : ℕ) (status : ActivityStatus) (w : World E) (a : Activity)
      → (update_activity_status E k status w).0 ≡ ok a
      → (is_valid_activity_status status ≡ true)
        × ((r : Activity) × (activity_at k w ≡ some r)
            × (a
                ≡ stamp activity_columns
                    (E.activities.clock w.db.activities)
                    (record r { status = status }))
            × (activity_at k (update_activity_status E k status w).1 ≡ some a))
        × ((j : ℕ)
            → (k == j) ≡ false
            → activity_at j (update_activity_status E k status w).1 ≡ activity_at j w)
  unfolding update_activity_status write_status
  update_activity_status_lem k status w a done =
      elim (Bool-cases (is_valid_activity_status status)) [
        | inr unknown ↦ absurd (ground arith)
        | inl known ↦
            elim (Result-cases (E.activities.first (has_id activity_columns k) w.db.activities)) [
              | inr (e, missing) ↦ absurd (ground arith)
              | inl (r, found) ↦
                  (let here =
                      E.activities.first_ok (has_id activity_columns k) w.db.activities r found in
                    let key : r.id ≡ k = (==_iff r.id k).0 (
                      find_first-holds (has_id activity_columns k)
                        (E.activities.rows w.db.activities) r here) in
                    let last : update_activity_status E k status w ≡ write_status E r status w =
                      ground arith in
                    (let (shape, after, others) =
                        write_status_lem r status w a (ap (λ m. m.0) (sym last) ∙ done) in
                      (
                        known,
                        (
                          r,
                          here,
                          shape,
                          subst (λ m. activity_at k m.1 ≡ some a) (sym last)
                              (subst (λ j. activity_at j (write_status E r status w).1 ≡ some a) key
                                after),
                        ),
                        λ j other.
                            subst (λ m. activity_at j m.1 ≡ activity_at j w) (sym last)
                              (others j (ap (λ i. i == j) key ∙ other)),
                      )))
            ]
      ]
