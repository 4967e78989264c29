-- ===== src/Pressure/Within.antt =====
-- The calls that `runLoad` of cmd/pressure/main.go gives out stay below the count.
use go_order_lab.Prelude.{
  ℕ, zero, suc, ◌≤◌, ◌≡◌, refl, sym, ap, ◌∙◌, Bool, true, false, List, [], ◌∷◌, ◌++◌, ℤ, pos, arith,
  leb, ◌||◌, ◌<◌, length, length-append,
}
use go_order_lab.Pressure.Load.{
  Phase, asking, calling, returned, Load, Plan, is_over, Step, take, finish, leave, replicate,
  started, all_returned,
}

abbrev pub has_returned : List Phase → Bool
has_returned [] = false
has_returned (asking ∷ r) = has_returned r
has_returned (calling i ∷ r) = has_returned r
has_returned (returned ∷ r) = true

has_returned-append :
    (l r : List Phase) → has_returned (l ++ r) ≡ (has_returned l || has_returned r)
has_returned-append [] r = refl
has_returned-append (asking ∷ l) r = has_returned-append l r
has_returned-append (calling i ∷ l) r = has_returned-append l r
has_returned-append (returned ∷ l) r = refl

has_returned_started : (n : ℕ) → has_returned (replicate n asking) ≡ false
has_returned_started zero = refl
has_returned_started (suc n) = has_returned_started n

pub some_workers : (l : List Phase) → 0 < length l → all_returned l ≡ true → has_returned l ≡ true
some_workers [] some h = absurd (omega arith)
some_workers (asking ∷ l) some h = cc
some_workers (calling i ∷ l) some h = cc
some_workers (returned ∷ l) some h = refl

length_started : (n : ℕ) → length (replicate n asking) ≡ n
length_started zero = refl
length_started (suc n) = omega (arith, length_started n)

differ : {b : Bool} → b ≡ false → b ≡ true → ⊥
differ p q = cc

same_length :
    {n : ℕ} {w : List Phase} (l : List Phase) (p q : Phase) (r : List Phase)
    → w ≡ l ++ p ∷ r
    → length w ≡ n
    → length (l ++ q ∷ r) ≡ n
same_length l p q r at h =
    omega (arith, ap length at, length-append l (p ∷ r), length-append l (q ∷ r), h)

module _ (P : Plan) (counted : P.duration ≡ pos 0) where
  pub is_over_counted : (now : ℤ) (n : ℕ) → is_over P now n ≡ leb P.count n
  unfolding is_over
  is_over_counted now n = rw counted refl

  -- No call is given out beyond the count, and a worker returns only when all are given out.
  pub record IsWithin (n : ℕ) (s : Load) : Type 0 where
    pub within : s.next ≤ P.count
    pub given_out : has_returned s.workers ≡ true → P.count ≤ s.next
    pub same_workers : length s.workers ≡ n

  pub started-IsWithin : (n : ℕ) → IsWithin n (started n)
  started-IsWithin n = record {
    within = omega arith;
    given_out = λ h. absurd (differ (has_returned_started n) h);
    same_workers = length_started n;
  }

  -- Another phase for a worker that has not returned.
  keep :
      (s : Load) (l : List Phase) (p q : Phase) (r : List Phase)
      → s.workers ≡ l ++ p ∷ r
      → (has_returned (q ∷ r)) ≡ has_returned (p ∷ r)
      → has_returned (l ++ q ∷ r) ≡ true
      → (has_returned s.workers ≡ true → P.count ≤ s.next)
      → P.count ≤ s.next
  keep s l p q r at same e out = out (
      ap has_returned at
      ∙ has_returned-append l (p ∷ r)
      ∙ ap (λ b. has_returned l || b) (sym same)
      ∙ sym (has_returned-append l (q ∷ r))
      ∙ e)

  pub Step-IsWithin : {n : ℕ} {s t : Load} → Step P s t → IsWithin n s → IsWithin n t
  Step-IsWithin {n} {s} (take l r now at more) h = record {
    within = let over = sym (is_over_counted now s.next) ∙ more in let w = h.within in ground arith;
    given_out =
        λ e. let old = keep s l asking (calling s.next) r at refl e h.given_out in omega arith;
    same_workers = same_length l asking (calling s.next) r at h.same_workers;
  }
  Step-IsWithin {n} {s} (finish l r i at) h = record {
    within = h.within;
    given_out = λ e. keep s l (calling i) asking r at refl e h.given_out;
    same_workers = same_length l (calling i) asking r at h.same_workers;
  }
  Step-IsWithin {n} {s} (leave l r now at over) h = record {
    within = h.within;
    given_out = λ e. let over' = sym (is_over_counted now s.next) ∙ over in ground arith;
    same_workers = same_length l asking returned r at h.same_workers;
  }
