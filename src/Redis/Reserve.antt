-- ===== src/Redis/Reserve.antt =====
-- What `Reserve` of internal/service/redis_stock.go does to the stock and the users.
use go_order_lab.Prelude.{
  ℕ, ◌≡◌, refl, sym, ap, ◌∙◌, true, false, Option, none, some, List, [], ◌∷◌, Result, ok, err, ℤ,
  pos, ◌+ℤ◌, ◌<ℤ◌, ◌≤ℤ◌, Text, text_eq, text_eq_refl, if◌then◌else◌, arith, int_laws, Bool-cases,
  Option-cases, Result-cases, inl, inr, decimal, leb_ℤ, eq_ℤ-eq, eq_ℤ,
}
use go_order_lab.Model.{Activity}
use go_order_lab.Redis.Commands.{Redis, Value, number, as_number}
use go_order_lab.Redis.Keys.{stock_key, users_key, stock_key-users_key, users_key-stock_key}
use go_order_lab.Redis.Scripts.{ensure_stock, reserve_unit, reserve_script, take_if_left}
use go_order_lab.Redis.Stock.{reserve_ttl, reserve_ttl_pos, interpret, call, interpreted, reserve}

interpret_ok :
    (values : List ℤ) (left : ℤ) → interpret values ≡ ok left → values ≡ pos 0 ∷ left ∷ []
unfolding interpret
interpret_ok [] left h = cc
interpret_ok (code ∷ []) left h = cc
interpret_ok (code ∷ v ∷ []) left h = elim (Bool-cases (eq_ℤ code (pos 0))) [
  | inl e ↦ (let q = eq_ℤ-eq code (pos 0) e in ground arith)
  | inr e ↦ absurd (ground arith)
]
interpret_ok (code ∷ v ∷ x ∷ xs) left h = cc

module _ (R : Redis) where
  pub call_ok :
      {A : Type 0} (f : R.State → Result A × R.State) (s : R.State) (a : A) (s' : R.State)
      → call R f s ≡ (ok a, s')
      → f s ≡ (ok a, s')
  call_ok f s a s' h = ground arith

  pub call-keeps :
      {A : Type 0} (J : R.State → Type 0) (f : R.State → Result A × R.State) (s : R.State)
      → J s
      → J (f s).1
      → J (call R f s).1
  call-keeps J f s h k = ground arith

  interpreted_ok :
      (m : Result (List ℤ) × R.State) (left : ℤ) (s' : R.State)
      → interpreted R m ≡ (ok left, s')
      → m ≡ (ok (pos 0 ∷ left ∷ []), s')
  interpreted_ok (ok values, s) left s' h =
      let e = interpret_ok values left (ap (λ p. p.0) h) in ground arith
  interpreted_ok (err e, s) left s' h = ground arith

  take_if_left_ok :
      (stock users user : Text) (ttl : ℤ) (v : Option ℤ) (s : R.State) (left : ℤ) (s' : R.State)
      → v ≡ as_number (R.get stock s)
      → take_if_left R stock users user ttl v s ≡ (ok (pos 0 ∷ left ∷ []), s')
      → (s3 : R.State) × (R.decrement stock s ≡ (ok left, s3))
        × (s' ≡ R.expire users ttl (R.add users user s3))
        × (pos 0 ≤ℤ left)
  take_if_left_ok stock users user ttl none s left s' v h = absurd (ground arith)
  take_if_left_ok stock users user ttl (some n) s left s' v h =
      elim (Bool-cases (leb_ℤ n (pos 0))) [
        | inl e ↦ absurd (ground arith)
        | inr e ↦ elim (Result-cases (R.decrement stock s).0) [
          | inl (x, d) ↦
              (let same : x ≡ left = ground arith in
                let (value, _, _) =
                  R.decrement_ok stock s x (R.decrement stock s).1 (ground arith) in
                (
                  (R.decrement stock s).1,
                  ground arith,
                  ground arith,
                  grind (int_laws, value, v, same, e),
                ))
          | inr (x, d) ↦ absurd (ground arith)
        ]
      ]

  reserve_unit_ok :
      (stock users user : Text) (ttl : ℤ) (s : R.State) (left : ℤ) (s' : R.State)
      → reserve_unit R stock users user ttl s ≡ (ok (pos 0 ∷ left ∷ []), s')
      → (R.is_member users user s ≡ false)
        × (s3 : R.State) × (R.decrement stock s ≡ (ok left, s3))
        × (s' ≡ R.expire users ttl (R.add users user s3))
        × (pos 0 ≤ℤ left)
  unfolding reserve_unit
  reserve_unit_ok stock users user ttl s left s' h = elim (Bool-cases (R.is_member users user s)) [
    | inl e ↦ absurd (not_duplicate (as_number (R.get stock s)) (rw e at h))
    | inr e ↦
        (let (s3, taken, last, enough) =
            take_if_left_ok stock users user ttl _ s left s' refl (rw e at h) in
          (e, s3, taken, last, enough))
  ]
    where
      not_duplicate :
          (v : Option ℤ)
          → ◌≡◌ {A = Result (List ℤ) × R.State}
              (ok (elim v [ none ↦ ℤ.negsuc 0 ∷ [] | some n ↦ ℤ.negsuc 0 ∷ n ∷ [] ]), s)
              (ok (pos 0 ∷ left ∷ []), s')
          → ⊥
      not_duplicate none h = ground arith
      not_duplicate (some n) h = ground arith

  -- The entry that a reservation finds: the one in the cache, or else a new one.
  abbrev pub entry : Option Value → ℤ → Option Value
  entry none initial = some (number initial)
  entry (some v) initial = some v

  get-ensure_stock :
      (k : Text) (n ttl : ℤ) (s : R.State)
      → pos 0 <ℤ ttl
      → R.get k (ensure_stock R k n ttl s) ≡ entry (R.get k s) n
  unfolding ensure_stock
  get-ensure_stock k n ttl s h = elim (Option-cases (R.get k s)) [
    | inl e ↦ rw (e, ensure_stock, R.get-set k n ttl s k h, text_eq_refl k) refl
    | inr (v, e) ↦ rw (e, ensure_stock) e
  ]

  is_member-ensure_stock :
      (k : Text) (n ttl : ℤ) (s : R.State) (j m : Text)
      → text_eq k j ≡ false
      → R.is_member j m (ensure_stock R k n ttl s) ≡ R.is_member j m s
  unfolding ensure_stock
  is_member-ensure_stock k n ttl s j m h = elim (Option-cases (R.get k s)) [
    | inl e ↦ rw (e, ensure_stock) (R.is_member-set k n ttl s j m h)
    | inr (v, e) ↦ rw (e, ensure_stock) refl
  ]

  -- A reservation is a new one; it leaves one unit less than the cache held, or than the activity
  -- has if the cache did not hold it, and adds the user to the holders.
  pub reserve_lem :
      (now : ℤ) (a : Activity) (u : ℕ) (s : R.State) (left : ℤ) (s' : R.State)
      → reserve R now a u s ≡ (ok left, s')
      → (R.is_member (users_key a.id) (decimal u) s ≡ false)
        × (as_number (entry (R.get (stock_key a.id) s) a.stock) ≡ some (left +ℤ pos 1))
        × (pos 0 ≤ℤ left)
        × (R.get (stock_key a.id) s' ≡ some (number left))
        × ((m : Text)
            → R.is_member (users_key a.id) m s'
              ≡ (if text_eq (decimal u) m then true else R.is_member (users_key a.id) m s))
  unfolding reserve reserve_script
  reserve_lem now a u s left s' h =
      let K = stock_key a.id in
      let U = users_key a.id in
      let ttl = reserve_ttl now a.end_at in
      let live = reserve_ttl_pos now a.end_at in
      let s1 = ensure_stock R K a.stock ttl s in
      let (free, s3, taken, last, enough) =
        reserve_unit_ok K U (decimal u) ttl (R.expire U ttl s1) left s' (
          call_ok (reserve_script R K U a.stock (decimal u) ttl) s _ s'
            (interpreted_ok _ left s' h)) in
      let (value, entry_now, members) = R.decrement_ok K (R.expire U ttl s1) left s3 taken in
      let before : (m : Text) → R.is_member U m (R.expire U ttl s1) ≡ R.is_member U m s = λ m.
        R.is_member-expire U ttl s1 U m live
        ∙ is_member-ensure_stock K a.stock ttl s U m (stock_key-users_key a.id a.id) in
      (
        sym (before (decimal u)) ∙ free,
        sym (ap as_number (R.get-expire U ttl s1 K live ∙ get-ensure_stock K a.stock ttl s live))
            ∙ value,
        enough,
        rw
            (
              last,
              R.get-expire U ttl (R.add U (decimal u) s3) K live,
              R.get-add U (decimal u) s3 K (users_key-stock_key a.id a.id),
            )
            entry_now,
        λ m.
            rw
              (
                last,
                R.is_member-expire U ttl (R.add U (decimal u) s3) U m live,
                R.is_member-add U (decimal u) s3 m,
                members U m (stock_key-users_key a.id a.id),
                before m,
              )
              refl,
      )
