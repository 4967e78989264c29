-- ===== src/Catalog/Activities.antt =====
-- What the creation of an activity and a change of its status have done.
use go_order_lab.Prelude.{
  ◌≡◌, refl, sym, ap, ◌∙◌, Bool, true, some, [], ◌∷◌, ◌++◌, ok, ℤ, pos, ◌+ℤ◌, ◌*ℤ◌, ◌≤ℤ◌, ◌<ℤ◌,
  leb_ℤ, ltb_ℤ, int_laws, wrap64, arith, Result-cases, Bool-cases, inl, inr, ==_refl, ◌||◌,
}
use go_order_lab.Store.Rows.{has_id, find_first}
use go_order_lab.Model.{Product, product_columns, Activity}
use go_order_lab.Env.{Env, World}
use go_order_lab.Orders.Service.{seconds, ensure_activity_orderable}
use go_order_lab.Catalog.{
  CreateActivityInput, activity_duration, new_activity, prewarm, create_activity,
}

-- A duration of up to some 285 years does not overflow.
seconds_pos : (n : ℤ) → pos 0 <ℤ n → n ≤ℤ pos 9_000_000_000 → pos 0 ≤ℤ seconds n
unfolding seconds wrap64 ◌*ℤ◌
seconds_pos n h k = ground arith

duration_range :
    (n : ℤ)
    → n ≤ℤ pos 9_000_000_000
    → (pos 0 <ℤ activity_duration n) × (activity_duration n ≤ℤ pos 9_000_000_000)
duration_range n h = ground arith

module _ (E : Env) (redis_stock : Bool) (input : CreateActivityInput) (now until_now : ℤ) where
  -- `a` is a new row at the end of the table for a product that has the stock, with a positive price and
  -- stock, open for orders at once, and in the cache unless the cache failed.
  pub record Published (w : World E) (a : Activity) (w' : World E) : Type 0 where
    pub product : Product
    pub known :
        find_first (has_id product_columns input.product_id) (E.products.rows w.db.products)
        ≡ some product
    pub in_stock : a.stock ≤ℤ product.stock
    pub some_stock : pos 0 <ℤ a.stock
    pub some_price : pos 0 <ℤ a.price
    pub asked :
        (a.product_id ≡ input.product_id) × (a.price ≡ input.price) × (a.stock ≡ input.stock)
    pub added : E.activities.rows w'.db.activities ≡ E.activities.rows w.db.activities ++ a ∷ []
    pub orderable : ensure_activity_orderable a now ≡ ok tt
    pub cached :
        redis_stock ≡ true
        → (E.cache.prewarm until_now a w.cache).0 ≡ ok tt
        → E.cache.stock w'.cache a.id ≡ some a.stock

  new_activity_orderable :
      input.duration_seconds ≤ℤ pos 9_000_000_000
      → ensure_activity_orderable (new_activity input now) now ≡ ok tt
  unfolding ensure_activity_orderable
  new_activity_orderable short =
      let (some_time, little) = duration_range input.duration_seconds short in
      let later = seconds_pos (activity_duration input.duration_seconds) some_time little in
      let end_at = now +ℤ seconds (activity_duration input.duration_seconds) in
      let open_now : now ≤ℤ end_at = omega (int_laws, later) in ground arith

  prewarmed :
      (a : Activity) (w : World E) (s : E.cache.State)
      → s ≡ (E.cache.prewarm until_now a w.cache).1
      → (E.cache.prewarm until_now a w.cache).0 ≡ ok tt
      → E.cache.stock s a.id ≡ some a.stock
  prewarmed a w s last warm =
      let set = E.cache.prewarm_ok until_now a w.cache s (ground arith) a.id in
      rw (set, ==_refl) refl

  -- An activity whose duration is at most 9,000,000,000 seconds and whose creation reports no error is a
  -- new row for a product that has the stock, with a positive price and stock; it can be ordered at
  -- once, and the cache has its stock unless the cache itself failed.
  pub create_activity-Published :
      (a : Activity) (w : World E)
      → input.duration_seconds ≤ℤ pos 9_000_000_000
      → (create_activity E redis_stock input now until_now w).0 ≡ ok a
      → Published w a (create_activity E redis_stock input now until_now w).1
  unfolding create_activity prewarm ensure_activity_orderable
  create_activity-Published a w short done =
      elim (Bool-cases (leb_ℤ input.price (pos 0) || leb_ℤ input.stock (pos 0))) [
        | inl free ↦ absurd (ground arith)
        | inr priced ↦
            elim (Result-cases
              (E.products.first (has_id product_columns input.product_id) w.db.products)) [
                | inr (e, missing) ↦ absurd (ground arith)
                | inl (p, found) ↦ elim (Bool-cases (ltb_ℤ p.stock input.stock)) [
                  | inl more ↦ absurd (ground arith)
                  | inr fits ↦
                      elim (Result-cases
                        (E.activities.create (new_activity input now) w.db.activities)) [
                          | inr (e, refused) ↦ absurd (ground arith)
                          | inl ((row, s), made) ↦
                              (let (shape, rows, _) =
                                  E.activities.create_ok (new_activity input now) w.db.activities
                                    row s made in
                                let own : row ≡ a = ground arith in
                                let last : (create_activity E redis_stock input now until_now
                                      w).1.db.activities
                                    ≡ s =
                                  ground arith in
                                let cache : redis_stock ≡ true
                                    → (create_activity E redis_stock input now until_now w).1.cache
                                      ≡ (E.cache.prewarm until_now a w.cache).1 =
                                  λ on. ground arith in
                                (let new = sym own ∙ shape in
                                  let stock : a.stock ≡ input.stock = ap (λ r. r.stock) new in
                                  let price : a.price ≡ input.price = ap (λ r. r.price) new in
                                  record {
                                    product = p;
                                    known =
                                        E.products.first_ok
                                          (has_id product_columns input.product_id) w.db.products p
                                          found;
                                    in_stock = rw stock (ground arith);
                                    some_stock = rw stock (ground arith);
                                    some_price = rw price (ground arith);
                                    asked = (ap (λ r. r.product_id) new, price, stock);
                                    added =
                                        ap E.activities.rows last
                                        ∙ rows
                                        ∙ ap (λ r. E.activities.rows w.db.activities ++ r ∷ []) own;
                                    orderable =
                                        ap (λ r. ensure_activity_orderable r now) new
                                        ∙ new_activity_orderable short;
                                    cached = λ on warm.
                                        prewarmed a w
                                          (create_activity E redis_stock input now until_now
                                            w).1.cache
                                          (cache on) warm;
                                  }))
                        ]
                ]
              ]
      ]
