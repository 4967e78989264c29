-- ===== src/Pressure/Verdict.antt =====
-- What a verification of cmd/pressure/main.go that passes has seen.
use go_order_lab.Prelude.{
  ℕ, ◌≡◌, refl, sym, ap, ◌∙◌, Bool, true, false, some, inl, inr, Bool-cases, List, [], ◌∷◌, Result,
  ok, ℤ, pos, negsuc, ◌-ℤ◌, ◌≤ℤ◌, eq_ℤ-eq, wrap64, wrap64_id, IsInt64, eq_of_parts, int_laws, Text,
  codes, length, get_elem?, arith, Result-cases, ◌-◌, ◌⊎◌, subst,
}
use go_order_lab.Pressure.Verify.{
  ListedOrder, OrderList, StockReport, ListedActivity, Failure, Outcome, got, failed, Poll, settle,
  mysql_stock, scan, redis_matches, is_valid, first_order, conclude, verify,
}
use go_order_lab.Pressure.Answers.{
  scan-OneEach, waits_at, one_place, Settled, settle-Settled, Listed, mysql_stock-Listed,
}

-- What is true of the answers behind a verification that passes.
pub record Verified (id initial accepted : ℤ) (stock : Result StockReport)
    (activities : Result (List ListedActivity)) (order_no : Text) (orders : OrderList)
    : Type 0 where
  pub all_listed : pos (length orders.items) ≡ accepted
  pub all_wait :
      (i : ℕ) (o : ListedOrder) → get_elem? orders.items i ≡ some o → o.status ≡ codes "WAIT_PAY"
  pub one_each :
      (i j : ℕ) (a b : ListedOrder)
      → get_elem? orders.items i ≡ some a
      → get_elem? orders.items j ≡ some b
      → a.user_id ≡ b.user_id
      → i ≡ j
  pub first : (o : ListedOrder) × (get_elem? orders.items 0 ≡ some o) × (o.order_no ≡ order_no)
  pub in_stock :
      (rows : List ListedActivity) × (activities ≡ ok rows) × Listed id (initial -ℤ accepted) rows
  pub in_cache :
      (r : StockReport) × (stock ≡ ok r)
      × (r.checked ≡ pos 1)
      × (r.missing ≡ pos 0)
      × (r.mismatched ≡ pos 0)

outcome_cases :
    {A : Type 0} (r : Outcome A) → ((a : A) × (r ≡ got a)) ⊎ ((e : Failure) × (r ≡ failed e))
outcome_cases (got a) = inl (a, refl)
outcome_cases (failed e) = inr (e, refl)

left_over : (a b : ℤ) → IsInt64 a → pos 0 ≤ℤ b → b ≤ℤ a → (n : ℕ) × (a -ℤ b ≡ pos n)
left_over (pos m) (pos n) fits low high =
    (m - n, eq_of_parts (pos m -ℤ pos n) (pos (m - n)) (omega int_laws))
left_over (negsuc m) (pos n) fits low high = absurd (omega arith)
left_over a (negsuc n) fits low high = absurd (omega arith)

left_fits : (a b : ℤ) (n : ℕ) → IsInt64 a → pos 0 ≤ℤ b → a -ℤ b ≡ pos n → IsInt64 (pos n)
left_fits a b n fits low h =
    subst IsInt64 h (grind (int_laws, fits.0, low), grind (int_laws, fits.1, low))

first_lem :
    (os : List ListedOrder) (order_no : Text)
    → first_order os ≡ got order_no
    → (o : ListedOrder) × (get_elem? os 0 ≡ some o) × (o.order_no ≡ order_no)
first_lem [] order_no h = absurd (ground arith)
first_lem (o ∷ os) order_no h = (o, refl, ground arith)

module _ (id initial accepted : ℤ) (orders : OrderList) (report : StockReport)
    (listed : List ListedActivity) where
  valid_parts :
      (duplicate : Bool)
      → is_valid id initial accepted orders report listed duplicate ≡ true
      → (duplicate ≡ false)
        × (pos (length orders.items) ≡ accepted)
        × (mysql_stock id listed ≡ wrap64 (initial -ℤ accepted))
        × (report.checked ≡ pos 1)
        × (report.missing ≡ pos 0)
        × (report.mismatched ≡ pos 0)
  unfolding is_valid redis_matches
  valid_parts duplicate h =
      let total = eq_ℤ-eq orders.total accepted (ground arith) in
      let own = eq_ℤ-eq orders.total (pos (length orders.items)) (ground arith) in
      (
        ground arith,
        sym own ∙ total,
        eq_ℤ-eq (mysql_stock id listed) (wrap64 (initial -ℤ accepted)) (ground arith),
        eq_ℤ-eq report.checked (pos 1) (ground arith),
        eq_ℤ-eq report.missing (pos 0) (ground arith),
        eq_ℤ-eq report.mismatched (pos 0) (ground arith),
      )

  conclude-Verified :
      (order_no : Text)
      → IsInt64 initial
      → pos 0 ≤ℤ accepted
      → accepted ≤ℤ initial
      → conclude id initial accepted orders report listed ≡ got order_no
      → Verified id initial accepted (ok report) (ok listed) order_no orders
  unfolding conclude
  conclude-Verified order_no fits some_accepted few h =
      elim (outcome_cases (scan orders.items [] false)) [
        | inr (e, lost) ↦ absurd (ground arith)
        | inl (duplicate, scanned) ↦
            elim (Bool-cases (is_valid id initial accepted orders report listed duplicate)) [
              | inr bad ↦ absurd (ground arith)
              | inl valid ↦
                  (let (once, all, stock, checked, missing, mismatched) =
                      valid_parts duplicate valid in
                    let each = scan-OneEach orders.items [] (scanned ∙ ap got once) in
                    let last : first_order orders.items ≡ got order_no = ground arith in
                    let (n, left) = left_over initial accepted fits some_accepted few in
                    let there = mysql_stock-Listed id n listed (
                      stock
                      ∙ ap wrap64 left
                      ∙ wrap64_id (pos n) (left_fits initial accepted n fits some_accepted left)) in
                    record {
                      all_listed = all;
                      all_wait = λ i o e. waits_at orders.items [] i o each e;
                      one_each =
                          λ i j a b e k same. one_place orders.items [] i j a b each e k same;
                      first = first_lem orders.items order_no last;
                      in_stock = (listed, refl, subst (λ m. Listed id m listed) (sym left) there);
                      in_cache = (report, refl, checked, missing, mismatched);
                    })
            ]
      ]

module _ (id initial accepted : ℤ) (polls : List Poll) (stock : Result StockReport)
    (activities : Result (List ListedActivity)) where
  -- A verification that passes, where the initial stock has 64 bits and the accepted orders are at least
  -- none and at most the initial stock: in a round that found no order queued, the listed orders were
  -- as many as were accepted and at least one, each waiting to be paid and no two at different places
  -- of one user; the activity was listed with the initial stock less the accepted orders; the
  -- reconciliation had checked one activity and found it neither missing from the cache nor different;
  -- and the number that is returned is that of the first order.
  pub verify-Verified :
      (order_no : Text)
      → IsInt64 initial
      → pos 0 ≤ℤ accepted
      → accepted ≤ℤ initial
      → verify id initial accepted polls stock activities ≡ got order_no
      → (orders : OrderList) × Settled polls orders
        × Verified id initial accepted stock activities order_no orders
  unfolding verify
  verify-Verified order_no fits some_accepted few h = elim (outcome_cases (settle polls)) [
    | inr (e, lost) ↦ absurd (ground arith)
    | inl (orders, settled) ↦ elim (Result-cases stock) [
      | inr (e, lost) ↦ absurd (ground arith)
      | inl (report, known) ↦ elim (Result-cases activities) [
        | inr (e, lost) ↦ absurd (ground arith)
        | inl (listed, shown) ↦
            (let last : conclude id initial accepted orders report listed ≡ got order_no =
                ground arith in
              let v =
                conclude-Verified id initial accepted orders report listed order_no fits
                  some_accepted few last in
              (
                orders,
                settle-Settled polls orders settled,
                subst (λ s. Verified id initial accepted s activities order_no orders) (sym known)
                    (subst (λ a. Verified id initial accepted (ok report) a order_no orders)
                      (sym shown) v),
              ))
      ]
    ]
  ]
