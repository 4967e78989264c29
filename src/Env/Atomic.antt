-- ===== src/Env/Atomic.antt =====
-- What a failed transaction leaves, with the log lines behind it.
use go_order_lab.Prelude.{
  ◌≡◌, refl, ap, ◌∙◌, err, Error, Action, Text, ℕ, arith, Result-cases, inl, inr, subst,
}
use go_order_lab.Env.State.{Env, Db, World, transaction}
use go_order_lab.Env.Calls.{log, report, put_operation_logs}
use go_order_lab.Env.Laws.{log_lem, transaction_err}

module _ (E : Env) where
  -- All tables but the log are as they were.
  pub record SameTables (d d' : Db E) : Type 0 where
    pub operation_logs : E.operation_logs.State
    pub tables : d' ≡ record d { operation_logs = operation_logs }

  pub SameTables-refl : (d : Db E) → SameTables d d
  SameTables-refl d = record { operation_logs = d.operation_logs; tables = refl }

  pub log-SameTables :
      (action order_no : Text) (user_id : ℕ) (result message : Text) (w : World E) (d : Db E)
      → w.db ≡ d
      → SameTables d (log E action order_no user_id result message w).db
  log-SameTables action order_no user_id result message w d h =
      let (s, e) = log_lem E action order_no user_id result message w in
      record { operation_logs = s; tables = ap (λ v. v.db) e ∙ ap-db s }
    where
      ap-db :
          (s : E.operation_logs.State)
          → (put_operation_logs E s w).db ≡ record d { operation_logs = s }
      ap-db s = subst (λ x. (put_operation_logs E s w).db ≡ record x { operation_logs = s }) h refl

  -- A failed transaction takes its writes back.
  pub report-atomic :
      {A : Type 0} (m : Action (World E) A) (on_error : Error → World E → World E)
      (on_ok : A → World E → World E) (w : World E) (x : Error)
      → ((e : Error) (v : World E) → v.db ≡ w.db → SameTables w.db (on_error e v).db)
      → (report on_error on_ok (transaction E m w)).0 ≡ err x
      → SameTables w.db (report on_error on_ok (transaction E m w)).1.db
  report-atomic m on_error on_ok w x quiet h = elim (Result-cases (transaction E m w).0) [
    | inl (a, e) ↦ absurd (ground arith)
    | inr (y, e) ↦ rw (e, report) (quiet y (transaction E m w).1 (transaction_err E m w y e))
  ]
