-- ===== src/Pressure/Percentiles.antt =====
-- The percentiles of a report of cmd/pressure/main.go.
use go_order_lab.Prelude.{
  ℕ, zero, suc, ◌<◌, ◌≤◌, ◌^◌, ◌≡◌, refl, sym, ap, subst, ◌∙◌, Bool, true, false, some, List, [],
  ◌∷◌, length, get_elem?, get_elem?_total, arith, int_laws, ltb_ℤ, eq_of_parts, ℤ, pos, negsuc,
  ◌-ℤ◌, ◌≤ℤ◌, Text, Bool-cases, inl, inr, map,
}
use go_order_lab.Floats.{Floats}
use go_order_lab.Pressure.Load.{Sample}
use go_order_lab.Pressure.Report.{
  completed, Report, get_at, percentile, sorted_latencies, finish, summarize, milliseconds,
  tally_all, new_report,
}
use go_order_lab.Pressure.Sorted.{
  IsSorted, sort_by-IsSorted, length-sort_by, length-map, get_elem?_mono,
}

differ : {b : Bool} → b ≡ false → b ≡ true → ⊥
differ p q = cc

before : (i : ℕ) → pos (suc i) -ℤ pos 1 ≡ pos i
before i = eq_of_parts (pos (suc i) -ℤ pos 1) (pos i) (omega int_laws)

module _ (R : Floats) where
  open R use {F, of_int, thousandths, leb, mul}

  abbrev rank : ℕ → ℕ → ℤ
  rank p n = R.ceil (mul (thousandths p) (of_int (pos n)))

  some_positive : (n : ℕ) → leb (of_int (pos 0)) (of_int (pos n)) ≡ true
  some_positive n = R.of_int_mono (pos 0) (pos n) (omega arith)

  part_positive : (p : ℕ) → leb (of_int (pos 0)) (thousandths p) ≡ true
  part_positive p =
      subst (λ y. leb y (thousandths p) ≡ true) R.thousandths_none
        (R.thousandths_mono 0 p (omega arith))

  part_whole : (p : ℕ) → p ≤ 1000 → leb (thousandths p) (of_int (pos 1)) ≡ true
  part_whole p high =
      subst (λ y. leb (thousandths p) y ≡ true) R.thousandths_whole (R.thousandths_mono p 1000 high)

  few_counted : (n : ℕ) → n < 2 ^ 53 → leb (of_int (pos n)) (of_int (pos (2 ^ 53))) ≡ true
  few_counted n small = R.of_int_mono (pos n) (pos (2 ^ 53)) (omega arith)

  part_mono :
      (p q n : ℕ)
      → p ≤ q
      → q ≤ 1000
      → n < 2 ^ 53
      → leb (mul (thousandths p) (of_int (pos n))) (mul (thousandths q) (of_int (pos n))) ≡ true
  part_mono p q n h high small =
      R.mul_mono (thousandths p) (thousandths q) (of_int (pos n)) (part_positive p)
        (R.thousandths_mono p q h) (part_whole q high) (some_positive n) (few_counted n small)

  -- A part of a count is no more than the count.
  part_under :
      (p n : ℕ)
      → p ≤ 1000
      → n < 2 ^ 53
      → leb (mul (thousandths p) (of_int (pos n))) (of_int (pos n)) ≡ true
  part_under p n high small =
      subst (λ y. leb (mul (thousandths p) (of_int (pos n))) y ≡ true)
        (ap (λ t. mul t (of_int (pos n))) R.thousandths_whole ∙ R.mul_one (of_int (pos n)))
        (part_mono p 1000 n high (omega arith) small)

  part_above :
      (p n : ℕ)
      → 500 ≤ p
      → p ≤ 1000
      → suc n < 2 ^ 53
      → leb (mul (thousandths p) (of_int (pos (suc n)))) (of_int (pos 0)) ≡ false
  part_above p n low high small =
      let x = of_int (pos (suc n)) in
      elim (Bool-cases (leb (mul (thousandths p) x) (of_int (pos 0)))) [
        | inr e ↦ e
        | inl e ↦ absurd (
            differ (R.mul_half n (omega arith)) (
              R.leb_trans (mul (thousandths 500) x) (mul (thousandths p) x) (of_int (pos 0))
                (part_mono 500 p (suc n) low high small) e))
      ]

  -- From one half to one, the rank is a place among n.
  rank_bounds :
      (p n : ℕ)
      → 500 ≤ p
      → p ≤ 1000
      → suc n < 2 ^ 53
      → (pos 1 ≤ℤ rank p (suc n)) × (rank p (suc n) ≤ℤ pos (suc n))
  rank_bounds p n low high small =
      let x = of_int (pos (suc n)) in
      let y = mul (thousandths p) x in
      let above = part_above p n low high small in
      let under = part_under p (suc n) high small in
      let few = few_counted (suc n) small in
      (
        R.ceil_pos y above (R.leb_trans y x (of_int (pos (2 ^ 53))) under few),
        subst (λ m. rank p (suc n) ≤ℤ m) (R.ceil_exact (suc n) small)
            (R.ceil_mono y x (R.leb_total y (of_int (pos 0)) above) under few),
      )

  rank_mono :
      (p q n : ℕ) → 500 ≤ p → p ≤ q → q ≤ 1000 → suc n < 2 ^ 53 → rank p (suc n) ≤ℤ rank q (suc n)
  rank_mono p q n low h high small =
      let x = of_int (pos (suc n)) in
      R.ceil_mono (mul (thousandths p) x) (mul (thousandths q) x)
        (R.leb_total (mul (thousandths p) x) (of_int (pos 0))
          (part_above p n low (omega (arith, h, high)) small))
        (part_mono p q (suc n) h high small)
        (R.leb_trans (mul (thousandths q) x) x (of_int (pos (2 ^ 53)))
          (part_under q (suc n) high small) (few_counted (suc n) small))

  -- The place of a rank.
  record Place (xs : List F) (k : ℤ) : Type 0 where
    value : F
    index : ℕ
    spot : k ≡ pos (suc index)
    read : get_at xs (k -ℤ pos 1) ≡ some value
    held : get_elem? xs index ≡ some value

  place : (xs : List F) (k : ℤ) → pos 1 ≤ℤ k → k ≤ℤ pos (length xs) → Place xs k
  place xs (pos zero) low high = absurd (omega arith)
  place xs (pos (suc i)) low high =
      let (x, e) = get_elem?_total xs i (omega arith) in
      record { value = x; index = i; spot = refl; read = ap (get_at xs) (before i) ∙ e; held = e }
  place xs (negsuc i) low high = absurd (omega arith)

  percentile_at :
      (xs : List F) (p n : ℕ)
      → length xs ≡ suc n
      → percentile R xs (thousandths p) ≡ get_at xs (rank p (suc n) -ℤ pos 1)
  unfolding percentile
  percentile_at [] p n h = absurd (omega arith)
  percentile_at (x ∷ xs) p n h = rw h refl

  -- The percentiles of the report and its maximum, in this order.
  pub record Ordered (r : Report R) : Type 0 where
    pub median : leb r.p50_ms r.p95_ms ≡ true
    pub most : leb r.p95_ms r.p99_ms ≡ true
    pub nearly_all : leb r.p99_ms r.max_ms ≡ true

  completed-Ordered :
      (elapsed : ℤ) (n : ℕ) (r : Report R) (p50 p95 p99 most : F)
      → leb p50 p95 ≡ true
      → leb p95 p99 ≡ true
      → leb p99 most ≡ true
      → Ordered (completed R elapsed n r p50 p95 p99 most)
  completed-Ordered elapsed n r p50 p95 p99 most a b c = elim (Bool-cases (ltb_ℤ (pos 0) elapsed)) [
    | inl timed ↦ rw timed (record { median = a; most = b; nearly_all = c })
    | inr instant ↦ rw instant (record { median = a; most = b; nearly_all = c })
  ]

  module _ (xs : List F) (n : ℕ) (long : length xs ≡ suc n) (small : suc n < 2 ^ 53) where
    percentile-Place : (p : ℕ) → 500 ≤ p → p ≤ 1000 → Place xs (rank p (suc n))
    percentile-Place p low high =
        let b = rank_bounds p n low high small in
        place xs (rank p (suc n)) b.0 (subst (λ m. rank p (suc n) ≤ℤ pos m) (sym long) b.1)

    -- A smaller rank is at a place before.
    places_mono :
        (j k : ℤ) (a : Place xs j) (b : Place xs k)
        → IsSorted R xs
        → j ≤ℤ k
        → leb a.value b.value ≡ true
    places_mono j k a b sorted le =
        get_elem?_mono R xs a.index b.index a.value b.value sorted
          (omega
            (arith, subst (λ i. i ≤ℤ pos (suc b.index)) a.spot (subst (λ i. j ≤ℤ i) b.spot le)))
          a.held b.held

    finish_lem :
        (elapsed : ℤ) (r : Report R)
        → IsSorted R xs
        → (r' : Report R) × (finish R elapsed xs r ≡ some r') × Ordered r'
    unfolding finish
    finish_lem elapsed r sorted =
        let a = percentile-Place 500 (omega arith) (omega arith) in
        let b = percentile-Place 950 (omega arith) (omega arith) in
        let c = percentile-Place 990 (omega arith) (omega arith) in
        let d = place xs (pos (suc n)) (omega arith) (omega arith) in
        let ea : percentile R xs (thousandths 500) ≡ some a.value =
          percentile_at xs 500 n long ∙ a.read in
        let eb : percentile R xs (thousandths 950) ≡ some b.value =
          percentile_at xs 950 n long ∙ b.read in
        let ec : percentile R xs (thousandths 990) ≡ some c.value =
          percentile_at xs 990 n long ∙ c.read in
        let ed : get_at xs (pos (length xs) -ℤ pos 1) ≡ some d.value =
          ap (λ m. get_at xs (pos m -ℤ pos 1)) long ∙ d.read in
        (
          completed R elapsed (length xs) r a.value b.value c.value d.value,
          rw (ea, eb, ec, ed) refl,
          completed-Ordered elapsed (length xs) r a.value b.value c.value d.value
              (places_mono (rank 500 (suc n)) (rank 950 (suc n)) a b sorted
                (rank_mono 500 950 n (omega arith) (omega arith) (omega arith) small))
              (places_mono (rank 950 (suc n)) (rank 990 (suc n)) b c sorted
                (rank_mono 950 990 n (omega arith) (omega arith) (omega arith) small))
              (places_mono (rank 990 (suc n)) (pos (suc n)) c d sorted
                (rank_bounds 990 n (omega arith) (omega arith) small).1),
        )

  -- With at least one sample, and fewer than 2 ^ 53, a report is made: no index is out of range, and
  -- the percentiles and the maximum are in order.
  pub summarize-Ordered :
      (name : Text) (workers elapsed : ℤ) (s : Sample) (ss : List Sample)
      → length (s ∷ ss) < 2 ^ 53
      → (r : Report R) × (summarize R name workers elapsed (s ∷ ss) ≡ some r) × Ordered r
  unfolding summarize sorted_latencies
  summarize-Ordered name workers elapsed s ss small =
      let xs = map (milliseconds R) (s ∷ ss) in
      finish_lem (sorted_latencies R (s ∷ ss)) (length ss)
        (length-sort_by R xs ∙ length-map (milliseconds R) (s ∷ ss)) small elapsed
        (tally_all R (s ∷ ss) (new_report R name workers elapsed (length (s ∷ ss))))
        (sort_by-IsSorted R xs)
