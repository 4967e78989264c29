-- ===== src/Metrics/Counts.antt =====
-- Go maps as association lists: a missing key has the zero value.
use go_order_lab.Prelude.{
  ℕ, ◌+◌, ◌%◌, ◌^◌, ◌≡◌, ◌↔◌, refl, sym, ap, ◌∙◌, Bool, true, false, List, [], ◌∷◌, if◌then◌else◌,
  arith, Bool-cases, inl, inr, length, ◌<◌,
}
use go_order_lab.Store.Rows.{count}

-- Boolean equality of keys.
pub record Keys (K : Type 0) : Type 0 where
  pub eq : K → K → Bool
  pub eq_iff : (a b : K) → (eq a b ≡ true) ↔ (a ≡ b)

module _ {K : Type 0} (E : Keys K) {V : Type 0} (none : V) where
  abbrev pub get : K → List (K × V) → V
  get k [] = none
  get k ((j, v) ∷ m) = if E.eq j k then v else get k m

  -- `m[k] = f(m[k])`
  abbrev pub modify : (V → V) → K → List (K × V) → List (K × V)
  modify f k [] = (k, f none) ∷ []
  modify f k ((j, v) ∷ m) = if E.eq j k then (j, f v) ∷ m else (j, v) ∷ modify f k m

  eq_same : (i j k : K) → E.eq i j ≡ true → E.eq i k ≡ E.eq j k
  eq_same i j k h = ap (λ x. E.eq x k) ((E.eq_iff i j).0 h)

  apart_from : (i k j : K) → E.eq i k ≡ false → E.eq i j ≡ true → E.eq k j ≡ false
  apart_from i k j apart own = elim (Bool-cases (E.eq k j)) [
    | inr other ↦ other
    | inl same ↦
        (let there : E.eq i k ≡ true =
            (E.eq_iff i k).1 ((E.eq_iff i j).0 own ∙ sym ((E.eq_iff k j).0 same)) in
          absurd (ground arith))
  ]

  pub get-modify :
      (f : V → V) (k j : K) (m : List (K × V))
      → get j (modify f k m) ≡ (if E.eq k j then f (get k m) else get j m)
  get-modify f k j [] = refl
  get-modify f k j ((i, v) ∷ m) = elim (Bool-cases (E.eq i k)) [
    | inl here ↦ rw (here, eq_same i k j here) (ground arith)
    | inr apart ↦ elim (Bool-cases (E.eq i j)) [
      | inr other ↦ rw (apart, other) (get-modify f k j m)
      | inl own ↦ rw (apart, own, apart_from i k j apart own) refl
    ]
  ]

-- A `uint64` counter.
abbrev pub increment : ℕ → ℕ
increment n = (n + 1) % 2 ^ 64

module _ {K : Type 0} (E : Keys K) where
  abbrev pub count_of : K → List (K × ℕ) → ℕ
  count_of = get E 0

  abbrev pub bump : K → List (K × ℕ) → List (K × ℕ)
  bump = modify E 0 increment

  pub count_of-bump :
      (k j : K) (m : List (K × ℕ))
      → count_of j (bump k m) ≡ (if E.eq k j then increment (count_of j m) else count_of j m)
  count_of-bump k j m = get-modify E 0 increment k j m ∙ elim (Bool-cases (E.eq k j)) [
    | inr other ↦ rw other refl
    | inl own ↦ rw own (ap (λ i. increment (count_of i m)) ((E.eq_iff k j).0 own))
  ]

-- A sequence of calls, and a counter that counts those that `p` picks.
module _ {O S : Type 0} (call : O → S → S) where
  abbrev pub run_all : List O → S → S
  run_all [] s = s
  run_all (o ∷ os) s = run_all os (call o s)

  pub run_all_counts :
      (counter : S → ℕ) (p : O → Bool)
      → ((o : O) (s : S) → counter (call o s) ≡ (if p o then increment (counter s) else counter s))
      → (os : List O) (s : S) → counter s + length os < 2 ^ 64
      → counter (run_all os s) ≡ counter s + count p os
  run_all_counts counter p step [] s fits = omega arith
  run_all_counts counter p step (o ∷ os) s fits =
      let one = step o s in
      let rest = run_all_counts counter p step os (call o s) in ground (arith, one, rest)
