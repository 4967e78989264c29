-- ===== src/Orders/Reconcile/Repair.antt =====
-- What each round of a reconciliation with repair leaves in the cache.
use go_order_lab.Prelude.{
  ℕ, ◌≡◌, refl, sym, subst, ap, ◌∙◌, Bool, true, false, ok, Option, some, List, [], ◌∷◌,
  Result-cases, Bool-cases, inl, inr, arith, if◌then◌else◌, Text, ℤ, eq_ℤ, eq_ℤ-eq, ◌==◌, ==_iff,
  ==_refl, ◌>>=◌,
}
use go_order_lab.Store.Rows.{All}
use go_order_lab.Model.{Activity}
use go_order_lab.Env.{Env, World, log}
use go_order_lab.Env.Laws.{log_lem}
use go_order_lab.Orders.Reconcile.{
  StockReconcileInput, StockReconcileResult, set_stock, settle_item, compare_item, reconcile_one,
  reconcile_loop,
}

module _ (E : Env) where
  abbrev pub cached : World E → ℕ → Option ℤ
  cached w a = E.cache.stock w.cache a

  log-cache :
      (action order_no : Text) (user_id : ℕ) (result message : Text) (w : World E)
      → (log E action order_no user_id result message w).cache ≡ w.cache
  log-cache action order_no user_id result message w =
      ap (λ v. v.cache) (log_lem E action order_no user_id result message w).1

  -- One repair: the entry is the activity's stock, and no other has changed.
  abbrev pub Repaired : Activity → World E → World E → Type 0
  Repaired a w w' = (b : ℕ) → cached w' b ≡ (if a.id == b then some a.stock else cached w b)

  set_stock-Repaired :
      (now : ℤ) (a : Activity) (w : World E) (u : Unit {0})
      → (set_stock E now a w).0 ≡ ok u
      → Repaired a w (set_stock E now a w).1
  unfolding set_stock
  set_stock-Repaired now a w u h b =
      E.cache.set_stock_ok now a.id a.stock a.end_at w.cache _ (ground arith) b

  settle_item-Repaired :
      (input : StockReconcileInput) (now : ℤ) (a : Activity) (v : ℤ) (exists : Bool) (m n o : Text)
      (r r' : StockReconcileResult) (w : World E)
      → input.repair ≡ true
      → (settle_item E input now a v exists m n o r w).0 ≡ ok r'
      → Repaired a w (settle_item E input now a v exists m n o r w).1
  unfolding settle_item
  settle_item-Repaired input now a v exists m n o r r' w repair h =
      elim (Result-cases (set_stock E now a w).0) [
        | inr (x, e) ↦ absurd (ground arith)
        | inl (u, e) ↦
            rw (settle_item, repair, e)
              (λ b.
                ap (λ c. E.cache.stock c b) (log-cache _ _ _ _ _ _)
                ∙ set_stock-Repaired now a w u e b)
      ]

  reconcile_one-Repaired :
      (input : StockReconcileInput) (now : ℤ) (a : Activity) (r r' : StockReconcileResult)
      (w : World E)
      → input.repair ≡ true
      → (reconcile_one E input now a r w).0 ≡ ok r'
      → Repaired a w (reconcile_one E input now a r w).1
  unfolding reconcile_one compare_item
  reconcile_one-Repaired input now a r r' w repair h =
      elim (Result-cases (E.cache.get_stock a.id w.cache)) [
        | inr (x, e) ↦ absurd (ground arith)
        | inl ((v, false), e) ↦
            rw (reconcile_one, e)
              (settle_item-Repaired input now a v false _ _ _ _ r' w repair
                (rw (reconcile_one, e) at h))
        | inl ((v, true), e) ↦ elim (Bool-cases (eq_ℤ v a.stock)) [
          | inl same ↦ rw (reconcile_one, e, compare_item, same) (agreeing v same e)
          | inr differs ↦
              rw (reconcile_one, e, compare_item, differs)
                (settle_item-Repaired input now a v true _ _ _ _ r' w repair
                  (rw (reconcile_one, e, compare_item, differs) at h))
        ]
      ]
    where
      agreeing :
          (v : ℤ)
          → eq_ℤ v a.stock ≡ true
          → E.cache.get_stock a.id w.cache ≡ ok (v, true)
          → Repaired a w w
      agreeing v same e b = elim (Bool-cases (a.id == b)) [
        | inr other ↦ rw other refl
        | inl here ↦ rw here (
            ap (cached w) (sym ((==_iff a.id b).0 here))
            ∙ E.cache.get_stock_ok a.id w.cache v true e
            ∙ ap some (eq_ℤ-eq v a.stock same))
      ]

  -- What the entries of the activities in `xs` should be.
  module _ (f : ℕ → ℤ) where
    abbrev Follows : List Activity → Type 0
    Follows = All (λ a. a.stock ≡ f a.id)

    step_keeps :
        (a : Activity) (w w' : World E) (b : ℕ)
        → a.stock ≡ f a.id
        → Repaired a w w'
        → cached w b ≡ some (f b)
        → cached w' b ≡ some (f b)
    step_keeps a w w' b follows repaired h = elim (Bool-cases (a.id == b)) [
      | inr other ↦ repaired b ∙ rw other h
      | inl here ↦ repaired b ∙ rw here (ap some (follows ∙ ap f ((==_iff a.id b).0 here)))
    ]

    module _ (input : StockReconcileInput) (now : ℤ) (repair : input.repair ≡ true) where
      loop_keeps :
          (xs : List Activity) (r r' : StockReconcileResult) (w : World E) (b : ℕ)
          → Follows xs
          → (reconcile_loop E input now xs r w).0 ≡ ok r'
          → cached w b ≡ some (f b)
          → cached (reconcile_loop E input now xs r w).1 b ≡ some (f b)
      unfolding reconcile_loop
      loop_keeps [] r r' w b follows done h = h
      loop_keeps (a ∷ xs) r r' w b follows done h =
          elim (Result-cases (reconcile_one E input now a r w).0) [
            | inr (x, e) ↦ absurd (ground arith)
            | inl (q, e) ↦
                (let w' = (reconcile_one E input now a r w).1 in
                  rw (◌>>=◌, e)
                    (loop_keeps xs q r' w' b follows.1 (rw (◌>>=◌, e) at done) (
                      step_keeps a w w' b follows.0
                        (reconcile_one-Repaired input now a r q w repair e) h)))
          ]

      pub loop_settles :
          (xs : List Activity) (r r' : StockReconcileResult) (w : World E)
          → Follows xs
          → (reconcile_loop E input now xs r w).0 ≡ ok r'
          → All (λ a. cached (reconcile_loop E input now xs r w).1 a.id ≡ some (f a.id)) xs
      unfolding reconcile_loop
      loop_settles [] r r' w follows done = tt
      loop_settles (a ∷ xs) r r' w follows done =
          elim (Result-cases (reconcile_one E input now a r w).0) [
            | inr (x, e) ↦ absurd (ground arith)
            | inl (q, e) ↦
                (let w' = (reconcile_one E input now a r w).1 in
                  let repaired = reconcile_one-Repaired input now a r q w repair e in
                  let now_set : cached w' a.id ≡ some (f a.id) =
                    repaired a.id ∙ rw (==_refl a.id) (ap some follows.0) in
                  let rest = rw (◌>>=◌, e) at done in
                  let last : (reconcile_loop E input now (a ∷ xs) r w).1
                      ≡ (reconcile_loop E input now xs q w').1 =
                    rw (◌>>=◌, e) refl in
                  subst (λ v. All (λ a. cached v a.id ≡ some (f a.id)) (a ∷ xs)) (sym last)
                    (
                      loop_keeps xs q r' w' a.id follows.1 rest now_set,
                      loop_settles xs q r' w' follows.1 rest,
                    ))
          ]
