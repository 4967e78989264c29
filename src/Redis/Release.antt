-- ===== src/Redis/Release.antt =====
-- What `Release` of internal/service/redis_stock.go does, and that it takes a reservation back.
use go_order_lab.Prelude.{
  ℕ, ◌≡◌, refl, sym, ap, ◌∙◌, true, false, Option, none, some, ok, ℤ, pos, ◌+ℤ◌, ◌-ℤ◌, Text,
  text_eq, text_eq_refl, text_eq-eq, if◌then◌else◌, arith, int_laws, Bool-cases, Result-cases, inl,
  inr, decimal,
}
use go_order_lab.Model.{Activity}
use go_order_lab.Redis.Commands.{Redis, Value, number, unreadable, as_number}
use go_order_lab.Redis.Keys.{stock_key, users_key, stock_key-users_key, users_key-stock_key}
use go_order_lab.Redis.Scripts.{release_script}
use go_order_lab.Redis.Stock.{reserve, release}
use go_order_lab.Redis.Reserve.{call_ok, entry, reserve_lem}

-- The entry behind INCR; on what is no integer INCR fails, so that case is never reached.
abbrev pub add_one : Option Value → Option Value
add_one none = some (number (pos 1))
add_one (some (number v)) = some (number (v +ℤ pos 1))
add_one (some (unreadable t)) = some (number (pos 1))

module _ (R : Redis) where
  counted_up :
      (v : Option Value) (n : ℤ) → as_number v ≡ some (n -ℤ pos 1) → some (number n) ≡ add_one v
  counted_up none n h = grind (int_laws, h)
  counted_up (some (number v)) n h = ap (λ x. some (number x)) (grind (int_laws, h))
  counted_up (some (unreadable t)) n h = absurd (ground arith)

  release_script_ok :
      (stock users user : Text) (s s' : R.State)
      → text_eq stock users ≡ false
      → text_eq users stock ≡ false
      → release_script R stock users user s ≡ (ok tt, s')
      → ((m : Text)
          → R.is_member users m s' ≡ (if text_eq user m then false else R.is_member users m s))
        × (R.get stock s'
            ≡ (if R.is_member users user s then add_one (R.get stock s) else R.get stock s))
  unfolding release_script
  release_script_ok stock users user s s' su us h =
      let s1 = (R.remove users user s).1 in
      let hit = R.remove_hit users user s in
      let members = R.is_member-remove users user s in
      let kept = R.get-remove users user s stock us in
      elim (Bool-cases (R.remove users user s).0) [
        | inl e ↦ elim (Result-cases (R.increment stock s1).0) [
          | inl (n, i) ↦
              (let last : (R.increment stock s1).1 ≡ s' = ground arith in
                let (value, now, same) = R.increment_ok stock s1 n s' ground arith in
                (
                  λ m. same users m su ∙ members m,
                  rw (sym hit ∙ e) (now ∙ counted_up (R.get stock s) n (rw kept at value)),
                ))
          | inr (x, i) ↦ absurd (ground arith)
        ]
        | inr e ↦
            (let last : s1 ≡ s' = ground arith in
              (λ m. rw (sym last) (members m), rw (sym hit ∙ e, sym last) kept))
      ]

  -- A release of a holder gives the unit back, and a release of anyone else does nothing.
  pub release_lem :
      (a u : ℕ) (s s' : R.State)
      → release R a u s ≡ (ok tt, s')
      → ((m : Text)
          → R.is_member (users_key a) m s'
            ≡ (if text_eq (decimal u) m then false else R.is_member (users_key a) m s))
        × (R.get (stock_key a) s' ≡ (
            if R.is_member (users_key a) (decimal u) s
            then add_one (R.get (stock_key a) s)
            else R.get (stock_key a) s))
  unfolding release
  release_lem a u s s' h =
      release_script_ok (stock_key a) (users_key a) (decimal u) s s' (stock_key-users_key a a)
        (users_key-stock_key a a)
        (call_ok R (release_script R (stock_key a) (users_key a) (decimal u)) s tt s' h)

  -- A reservation that is given back: the users are as before, and the stock is the one that the cache
  -- held, or that the activity has if the cache did not hold it.
  pub reserve-release :
      (now : ℤ) (a : Activity) (u : ℕ) (s : R.State) (left : ℤ) (s' s'' : R.State)
      → reserve R now a u s ≡ (ok left, s')
      → release R a.id u s' ≡ (ok tt, s'')
      → ((m : Text) → R.is_member (users_key a.id) m s'' ≡ R.is_member (users_key a.id) m s)
        × (as_number (R.get (stock_key a.id) s'')
            ≡ as_number (entry R (R.get (stock_key a.id) s) a.stock))
  reserve-release now a u s left s' s'' taken given =
      let (free, value, _, now_left, members) = reserve_lem R now a u s left s' taken in
      let (members', entry') = release_lem a.id u s' s'' given in
      let held : R.is_member (users_key a.id) (decimal u) s' ≡ true =
        members (decimal u) ∙ rw (text_eq_refl (decimal u)) refl in
      (
        λ m. elim (Bool-cases (text_eq (decimal u) m)) [
          | inl same ↦
              members' m
              ∙ rw same (
                  sym free
                  ∙ ap (λ x. R.is_member (users_key a.id) x s) (text_eq-eq (decimal u) m same))
          | inr other ↦ members' m ∙ rw other (members m ∙ rw other refl)
        ],
        ap as_number entry' ∙ rw (held, now_left) (sym value),
      )
