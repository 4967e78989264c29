-- ===== src/Users/Administrator.antt =====
-- What `EnsureAdmin` of internal/service/auth.go leaves: an account that signs in as administrator.
use go_order_lab.Prelude.{
  ◌≡◌, ◌≢◌, refl, sym, ap, ◌∙◌, Bool, true, false, some, List, [], ◌∷◌, ok, err, Error, arith, Text,
  text_eq, text_eq_refl, Result-cases, Bool-cases, inl, inr, failure, ◌==◌, ==_refl,
  record_not_found, activity_not_found, activity_not_available, sold_out, duplicate_order,
  order_not_found, illegal_transition, canceled, deadline_exceeded,
}
use go_order_lab.Model.{User, user_columns, admin, is_valid_user_role}
use go_order_lab.Store.Rows.{
  Columns, find_first, find_first-holds, find_first-append_fresh, All-find_first, upsert, Unique,
  stamp,
}
use go_order_lab.Env.{Env, World}
use go_order_lab.Users.Accounts.{with_token, login_found, login_answer}
use go_order_lab.Users.Tokens.{Jwt}
use go_order_lab.Users.{
  AuthService, Clock, known_role, sign_token, login, ensure_admin, hash_password, has_username,
  is_too_short, new_user,
}

-- The first row that meets `p` stays the first when it is saved, as long as it meets `p`.
find_first-upsert_same :
    {R : Type 0} (c : Columns R) (p : R → Bool) (r r' : R) (xs : List R)
    → Unique c xs
    → find_first p xs ≡ some r
    → (c.base r').id ≡ (c.base r).id
    → p r' ≡ true
    → find_first p (upsert c r' xs) ≡ some r'
find_first-upsert_same c p r r' [] u h e q = cc
find_first-upsert_same c p r r' (x ∷ xs) u h e q = elim (Bool-cases (p x)) [
  | inl hit ↦
      (let same : r ≡ x = ground arith in
        let here : ((c.base x).id == (c.base r').id) ≡ true =
          rw (e, same) (==_refl (c.base x).id) in
        rw (here, q) refl)
  | inr miss ↦
      (let there : find_first p xs ≡ some r = ground arith in
        let apart : (c.base r).id ≢ (c.base x).id =
          All-find_first (λ y. (c.base y).id ≢ (c.base x).id) p xs r u.0 there in
        let other : ((c.base x).id == (c.base r').id) ≡ false = ground arith in
        rw (other, miss) (find_first-upsert_same c p r r' xs u.1 there e q))
]

module _ (J : Jwt) (E : Env) (S : AuthService) (username password : Text) where
  record Administrator (w : World E) (u : User) : Type 0 where
    found : find_first (has_username username) (E.users.rows w.db.users) ≡ some u
    role : u.role ≡ admin
    hash : u.password_hash ≡ hash_password S password

  -- The row as it is saved.
  abbrev promoted : User → User
  promoted r = record r { password_hash = hash_password S password; role = admin }

  ensure_admin_found :
      (w : World E) (u r : User)
      → is_too_short username password ≡ false
      → E.users.first (has_username username) w.db.users ≡ ok r
      → (ensure_admin J E S username password w).0 ≡ ok u
      → Administrator (ensure_admin J E S username password w).1 u
  unfolding ensure_admin
  ensure_admin_found w u r long known done =
      elim (Result-cases (E.users.save (promoted r) w.db.users)) [
        | inr (e, failed) ↦ absurd (ground arith)
        | inl ((v, s), saved) ↦
            (let written = stamp user_columns (E.users.clock w.db.users) (promoted r) in
              let own : written ≡ u = ground arith in
              let last : (ensure_admin J E S username password w).1.db.users ≡ s = ground arith in
              let first = E.users.first_ok (has_username username) w.db.users r known in
              let named = find_first-holds (has_username username) _ r first in
              record {
                found =
                    ap (find_first (has_username username))
                      (ap E.users.rows last ∙ E.users.save_ok (promoted r) w.db.users s saved)
                    ∙ find_first-upsert_same user_columns (has_username username) r written
                        (E.users.rows w.db.users) (E.users.unique w.db.users) first refl named
                    ∙ ap some own;
                role = ap (λ x. x.role) (sym own);
                hash = ap (λ x. x.password_hash) (sym own);
              })
      ]

  ensure_admin_made :
      (w : World E) (u : User) (e : Error)
      → is_too_short username password ≡ false
      → E.users.first (has_username username) w.db.users ≡ err e
      → (ensure_admin J E S username password w).0 ≡ ok u
      → Administrator (ensure_admin J E S username password w).1 u
  unfolding ensure_admin
  ensure_admin_made w u record_not_found long missing done =
      elim (Result-cases (E.users.create (new_user S username password admin) w.db.users)) [
        | inr (e, refused) ↦ absurd (ground arith)
        | inl ((row, s), made) ↦
            (let (shape, rows, fresh) =
                E.users.create_ok (new_user S username password admin) w.db.users row s made in
              let own : row ≡ u = ground arith in
              let last : (ensure_admin J E S username password w).1.db.users ≡ s = ground arith in
              let named =
                ap (text_eq username) (ap (λ x. x.username) shape) ∙ text_eq_refl username in
              record {
                found =
                    ap (find_first (has_username username)) (ap E.users.rows last ∙ rows)
                    ∙ find_first-append_fresh (has_username username) (E.users.rows w.db.users) row
                        fresh named
                    ∙ ap some own;
                role = ap (λ x. x.role) (sym own ∙ shape);
                hash = ap (λ x. x.password_hash) (sym own ∙ shape);
              })
      ]
  ensure_admin_made w u activity_not_found long missing done = absurd (ground arith)
  ensure_admin_made w u activity_not_available long missing done = absurd (ground arith)
  ensure_admin_made w u sold_out long missing done = absurd (ground arith)
  ensure_admin_made w u duplicate_order long missing done = absurd (ground arith)
  ensure_admin_made w u order_not_found long missing done = absurd (ground arith)
  ensure_admin_made w u illegal_transition long missing done = absurd (ground arith)
  ensure_admin_made w u canceled long missing done = absurd (ground arith)
  ensure_admin_made w u deadline_exceeded long missing done = absurd (ground arith)
  ensure_admin_made w u (failure t) long missing done = absurd (ground arith)

  ensure_admin_lem :
      (w : World E) (u : User)
      → (ensure_admin J E S username password w).0 ≡ ok u
      → Administrator (ensure_admin J E S username password w).1 u
  unfolding ensure_admin
  ensure_admin_lem w u done = elim (Bool-cases (is_too_short username password)) [
    | inl short ↦ absurd (ground arith)
    | inr long ↦ elim (Result-cases (E.users.first (has_username username) w.db.users)) [
      | inl (r, known) ↦ ensure_admin_found w u r long known done
      | inr (e, missing) ↦ ensure_admin_made w u e long missing done
    ]
  ]

  -- After EnsureAdmin reports no error, and when the table can be read, a login under the configured name
  -- and password gives an administrator and a token of theirs, unless the signing itself fails,
  -- whether the account was there before or not.
  pub ensure_admin-login :
      (w : World E) (u r : User) (clock : Clock)
      → (ensure_admin J E S username password w).0 ≡ ok u
      → E.users.first (has_username username) (ensure_admin J E S username password w).1.db.users
        ≡ ok r
      → ((login J E S username password clock (ensure_admin J E S username password w).1).0
          ≡ with_token u (sign_token J S u clock))
        × (u.role ≡ admin)
  unfolding login_answer is_valid_user_role
  ensure_admin-login w u r clock done read =
      let a = ensure_admin_lem w u done in
      let after = (ensure_admin J E S username password w).1 in
      let first = E.users.first_ok (has_username username) after.db.users r read in
      let found = a.found in
      let own : r ≡ u = cc in
      let same : ◌≡◌ {A = User} (record u { role = known_role u.role }) u =
        ap (λ x. record u { role = known_role x }) a.role
        ∙ ap (λ x. record u { role = x }) (sym a.role) in
      let right : text_eq u.password_hash (hash_password S password) ≡ true =
        ap (λ h. text_eq h (hash_password S password)) a.hash
        ∙ text_eq_refl (hash_password S password) in
      (
        login_found J E S username password clock after r read
            ∙ ap (login_answer J E S username password clock) own
            ∙ rw (right, same) refl,
        a.role,
      )
