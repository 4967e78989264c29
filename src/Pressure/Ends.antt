-- ===== src/Pressure/Ends.antt =====
-- `runLoad` of cmd/pressure/main.go makes each call once and ends.
use mathlib.Core.List.Perm
use mathlib.Core.List.{Perm, append-nil}
use go_order_lab.Prelude.{
  ℕ, zero, suc, ◌+◌, ◌≤◌, ◌≡◌, refl, sym, ap, subst, ◌∙◌, true, List, [], ◌∷◌, ◌++◌, map, pos,
  arith, ◌*◌, ◌-◌, ◌⊎◌, inl, inr, Bool-cases, ◌<◌,
}
use go_order_lab.Pressure.Load.{
  Phase, asking, calling, returned, Load, Plan, is_over, Step, take, finish, leave, replicate,
  started, Run, here, then_step, all_returned,
}
use go_order_lab.Pressure.Calls.{
  upto, pending, pending_started, pending_returned, IsAccounted, Step-IsAccounted,
}
use go_order_lab.Pressure.Within.{
  some_workers, is_over_counted, IsWithin, started-IsWithin, Step-IsWithin,
}

module _ (P : Plan) (counted : P.duration ≡ pos 0) where
  Run-holds :
      (n : ℕ) {k : ℕ} {t : Load} → Run P (started n) k t → IsWithin P counted n t × IsAccounted P t
  Run-holds n (here k e) = (
    started-IsWithin P counted n,
    subst (λ z. Perm (map P.call z) []) (sym (pending_started n)) Perm.nil,
  )
  Run-holds n (then_step m e run step) =
      let (w, c) = Run-holds n run in (Step-IsWithin P counted step w, Step-IsAccounted P step c)

  -- A run without a duration, with at least one worker, calls each index below the count exactly once
  -- by the time that all workers have returned: the results are the answers, in some order.
  pub Run-calls :
      (n : ℕ) {k : ℕ} {t : Load}
      → 0 < n
      → Run P (started n) k t
      → all_returned t.workers ≡ true
      → Perm t.results (map P.call (upto P.count))
  Run-calls n {k} {t} some run ended =
      let (w, c) = Run-holds n run in
      let all : t.next ≡ P.count = omega (
        arith,
        w.within,
        w.given_out (some_workers t.workers (omega (arith, w.same_workers)) ended),
      ) in
      let none_left = pending_returned t.workers ended in
      subst (λ xs. Perm xs (map P.call (upto P.count))) (append-nil t.results)
        (subst (λ z. Perm (t.results ++ map P.call z) (map P.call (upto P.count))) none_left
          (subst (λ m. Perm (t.results ++ map P.call (pending t.workers)) (map P.call (upto m))) all
            c))

abbrev weight : Phase → ℕ
weight asking = 1
weight (calling i) = 2
weight returned = 0

abbrev weights : List Phase → ℕ
weights [] = 0
weights (p ∷ r) = weight p + weights r

weights-append : (l r : List Phase) → weights (l ++ r) ≡ weights l + weights r
weights-append [] r = omega arith
weights-append (p ∷ l) r = omega (arith, weights-append l r)

weights_started : (n : ℕ) → weights (replicate n asking) ≡ n
weights_started zero = refl
weights_started (suc n) = omega (arith, weights_started n)

-- The first worker that has not returned.
record Active (l : List Phase) : Type 0 where
  front : List Phase
  phase : Phase
  back : List Phase
  at : l ≡ front ++ phase ∷ back
  at_work : (phase ≡ asking) ⊎ ((i : ℕ) × (phase ≡ calling i))

find-Active : (l : List Phase) → (all_returned l ≡ true) ⊎ Active l
find-Active [] = inl refl
find-Active (asking ∷ r) =
    inr (record { front = []; phase = asking; back = r; at = refl; at_work = inl refl })
find-Active (calling i ∷ r) =
    inr (record { front = []; phase = calling i; back = r; at = refl; at_work = inr (i, refl) })
find-Active (returned ∷ r) = behind (find-Active r)
  where
    behind : (all_returned r ≡ true) ⊎ Active r → (all_returned r ≡ true) ⊎ Active (returned ∷ r)
    behind (inl e) = inl e
    behind (inr a) = inr (record {
      front = returned ∷ a.front;
      phase = a.phase;
      back = a.back;
      at = ap (λ z. returned ∷ z) a.at;
      at_work = a.at_work;
    })

module _ (P : Plan) where
  -- Whoever has not returned can make a step.
  active_step : (s : Load) → Active s.workers → (t : Load) × Step P s t
  active_step s a = elim (a.at_work) [
    | inr (i, e) ↦ (_, finish a.front a.back i (a.at ∙ ap (λ p. a.front ++ p ∷ a.back) e))
    | inl e ↦
        (let at = a.at ∙ ap (λ p. a.front ++ p ∷ a.back) e in
          elim (Bool-cases (is_over P (pos 0) s.next)) [
            | inl over ↦ (_, leave a.front a.back (pos 0) at over)
            | inr more ↦ (_, take a.front a.back (pos 0) at more)
          ])
  ]

module _ (P : Plan) (counted : P.duration ≡ pos 0) where
  abbrev measure : Load → ℕ
  measure s = 3 * (P.count - s.next) + weights s.workers

  Step-measure : {s t : Load} → Step P s t → measure t < measure s
  Step-measure {s} (take l r now at more) =
      let over = sym (is_over_counted P counted now s.next) ∙ more in
      let left : s.next < P.count = ground arith in
      omega
        (arith, ap weights at, weights-append l (asking ∷ r), weights-append l (calling s.next ∷ r))
  Step-measure {s} (finish l r i at) =
      omega (arith, ap weights at, weights-append l (asking ∷ r), weights-append l (calling i ∷ r))
  Step-measure {s} (leave l r now at over) =
      omega (arith, ap weights at, weights-append l (asking ∷ r), weights-append l (returned ∷ r))

  Run-measure : {s t : Load} {k : ℕ} → Run P s k t → k + measure t ≤ measure s
  Run-measure (here k e) = omega arith
  Run-measure (then_step m e run step) = omega (arith, Run-measure run, Step-measure step)

  -- A run without a duration ends: it makes at most three steps for each call and one for each worker,
  -- and while some worker has not returned a step can be made.
  pub Run-ends :
      (n : ℕ) {k : ℕ} {t : Load}
      → Run P (started n) k t
      → (k ≤ 3 * P.count + n) × ((all_returned t.workers ≡ true) ⊎ ((u : Load) × Step P t u))
  Run-ends n {k} {t} run = (
    omega (arith, Run-measure run, weights_started n),
    elim (find-Active t.workers) [ inl e ↦ inl e | inr a ↦ inr (active_step P t a) ],
  )
