-- ===== src/Env/Laws.antt =====
-- Rules for what a transaction and the log lines behind it leave in the tables.
use go_order_lab.Prelude.{
  ℕ, ◌≡◌, refl, Bool, true, false, if◌then◌else◌, Result, ok, err, Error, Action, Option-cases, inl,
  inr, Text, ◌>>=◌, subst, sym, Result-cases, execute, arith,
}
use go_order_lab.Env.State.{Env, Db, World, transaction, close}
use go_order_lab.Env.Calls.{log, log_row, report, put_operation_logs}

module _ (E : Env) where
  -- Of the tables, a log line changes the log only; it changes neither cache, broker nor channel.
  pub log_lem :
      (action order_no : Text) (user_id : ℕ) (result message : Text) (w : World E)
      → (s : E.operation_logs.State) × (log E action order_no user_id result message w
          ≡ put_operation_logs E s w)
  unfolding log
  log_lem action order_no user_id result message w =
      elim (Result-cases (
        E.operation_logs.create (log_row action order_no user_id result message)
          w.db.operation_logs)) [
            | inl ((_, s), e) ↦ (s, rw (e, log))
            | inr (_, e) ↦ (w.db.operation_logs, rw (e, log))
          ]

  module _ (J : Db E → Type 0) where
    -- `J` does not look at the log.
    abbrev pub IgnoresLog : Type 0
    IgnoresLog = (d : Db E) (s : E.operation_logs.State) → J d → J (record d { operation_logs = s })

    pub log-keeps :
        IgnoresLog
        → (action order_no : Text) (user_id : ℕ) (result message : Text) (w : World E) → J w.db
        → J (log E action order_no user_id result message w).db
    log-keeps quiet action order_no user_id result message w h =
        let (s, e) = log_lem action order_no user_id result message w in
        subst (λ v. J v.db) (sym e) (quiet w.db s h)

    close-keeps :
        {A : Type 0} (w : World E) (r : Result A) (w' : World E)
        → J w.db
        → ((a : A) → r ≡ ok a → J w'.db)
        → J (close E w (r, w')).1.db
    close-keeps w (ok a) w' h k = elim (Option-cases (E.commit w'.db.session)) [
      | inl e ↦ rw (e, close) (k a refl)
      | inr (_, e) ↦ rw (e, close) h
    ]
    close-keeps w (err e) w' h k = h

    -- A transaction keeps what its body keeps when it succeeds.
    pub transaction-keeps :
        {A : Type 0} (m : Action (World E) A) (w : World E)
        → J w.db
        → ((a : A) → (m w).0 ≡ ok a → J (m w).1.db)
        → J (transaction E m w).1.db
    transaction-keeps m w h k = elim (Option-cases (E.begin w.db.session)) [
      | inl e ↦ rw (e, transaction) (close-keeps w (m w).0 (m w).1 h k)
      | inr (_, e) ↦ rw (e, transaction) h
    ]

    pub bind-keeps :
        {A B : Type 0} (m : Action (World E) A) (f : A → Action (World E) B) (w : World E)
        → J (m w).1.db
        → ((a : A) (v : World E) → J v.db → J (f a v).1.db)
        → J ((m >>= f) w).1.db
    bind-keeps m f w h k = elim (Result-cases (m w).0) [
      | inl (a, e) ↦ rw (e, ◌>>=◌) (k a _ h)
      | inr (x, e) ↦ rw (e, ◌>>=◌) h
    ]

    pub execute-keeps :
        {A T : Type 0} (f : World E → Result (A × T)) (put : T → World E → World E) (w : World E)
        → J w.db
        → ((t : T) → J (put t w).db)
        → J (execute f put w).1.db
    execute-keeps f put w h k = elim (Result-cases (f w)) [
      | inl ((a, t), e) ↦ rw (e, execute) (k t)
      | inr (x, e) ↦ rw (e, execute) h
    ]

    pub if-keeps :
        {A : Type 0} (b : Bool) (m n : A × World E)
        → J m.1.db
        → J n.1.db
        → J (if b then m else n).1.db
    if-keeps true m n h k = h
    if-keeps false m n h k = k

    pub report-keeps :
        {A : Type 0} (on_error : Error → World E → World E) (on_ok : A → World E → World E)
        (m : Result A × World E)
        → ((e : Error) (w : World E) → J w.db → J (on_error e w).db)
        → ((a : A) (w : World E) → J w.db → J (on_ok a w).db)
        → J m.1.db
        → J (report on_error on_ok m).1.db
    report-keeps on_error on_ok (ok a, w) bad good h = good a w h
    report-keeps on_error on_ok (err e, w) bad good h = bad e w h

  -- A result stands only where the body gave it.
  pub close_ok :
      {A : Type 0} (w : World E) (r : Result A) (w' : World E) (a : A)
      → (close E w (r, w')).0 ≡ ok a
      → (r ≡ ok a) × ((close E w (r, w')).1 ≡ w')
  close_ok w (ok b) w' a h = ground arith
  close_ok w (err e) w' a h = cc

  pub transaction_ok :
      {A : Type 0} (m : Action (World E) A) (w : World E) (a : A)
      → (transaction E m w).0 ≡ ok a
      → ((m w).0 ≡ ok a) × ((transaction E m w).1 ≡ (m w).1)
  transaction_ok m w a h = ground arith

  -- After an error the tables are as they were.
  pub transaction_err :
      {A : Type 0} (m : Action (World E) A) (w : World E) (x : Error)
      → (transaction E m w).0 ≡ err x
      → (transaction E m w).1.db ≡ w.db
  transaction_err m w x h = ground arith
