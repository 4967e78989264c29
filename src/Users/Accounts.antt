-- ===== src/Users/Accounts.antt =====
-- What a registration leaves, and what its owner may do: `Register` and `Login`.
use go_order_lab.Prelude.{
  ◌<◌, ◌≡◌, ◌≢◌, refl, sym, ap, subst, ◌∙◌, true, false, some, [], ◌∷◌, ◌++◌, Result, ok, err,
  Error, none, ℤ, pos, ◌+ℤ◌, ◌≤ℤ◌, arith, Text, text_eq, text_eq_refl, Result-cases, Bool-cases,
  inl, inr, if◌then◌else◌, failure, codes,
}
use go_order_lab.Model.{User, UserRole, user, admin, is_valid_user_role}
use go_order_lab.Store.Rows.{any, find_first, All-find_first, find_first-append_fresh}
use go_order_lab.Env.{Env, World}
use go_order_lab.Http.{Context, Chain}
use go_order_lab.Http.Auth.{auth, require_role}
use go_order_lab.Users.Session.{IsBearer, KeptOut, sign_token-auth, sign_token-KeptOut}
use go_order_lab.Users.Tokens.{Jwt}
use go_order_lab.Users.{
  AuthService, Clock, known_role, sign_token, register, login, one_day, hash_password, has_username,
  is_too_short, new_user,
}

-- The answer of a login.
abbrev pub with_token : User → Result Text → Result (User × Text)
with_token u (ok token) = ok (u, token)
with_token u (err e) = err e

module _ (J : Jwt) (E : Env) (S : AuthService) (username : Text) where
  unfoldable pub login_answer : Text → Clock → User → Result (User × Text)
  login_answer password clock r =
      if text_eq r.password_hash (hash_password S password)
      then with_token (record r { role = known_role r.role })
          (sign_token J S (record r { role = known_role r.role }) clock)
      else err (failure (codes "invalid username or password"))

  pub login_found :
      (password : Text) (clock : Clock) (w : World E) (r : User)
      → E.users.first (has_username username) w.db.users ≡ ok r
      → (login J E S username password clock w).0 ≡ login_answer password clock r
  unfolding login login_answer
  login_found password clock w r found =
      let r' : User = record r { role = known_role r.role } in
      elim (Bool-cases (text_eq r.password_hash (hash_password S password))) [
        | inr wrong ↦ ground arith
        | inl right ↦ elim (Result-cases (sign_token J S r' clock)) [
          | inl (t, signed) ↦ ground arith
          | inr (e, unsigned) ↦ ground arith
        ]
      ]

  login_missing :
      (password : Text) (clock : Clock) (w : World E) (u : User) (token : Text) (e : Error)
      → E.users.first (has_username username) w.db.users ≡ err e
      → (login J E S username password clock w).0 ≢ ok (u, token)
  unfolding login
  login_missing password clock w u token e missing = ground arith

known_role_twice : (r : UserRole) → known_role (known_role r) ≡ known_role r
unfolding is_valid_user_role
known_role_twice UserRole.user = refl
known_role_twice UserRole.admin = refl
known_role_twice (UserRole.other s) = refl

module _ (J : Jwt) (E : Env) (S : AuthService) (username password : Text) (clock : Clock) where
  -- What a registration that reports no error has written.
  register_lem :
      (w : World E) (u : User) (token : Text)
      → (register J E S username password clock w).0 ≡ ok (u, token)
      → (sign_token J S u clock ≡ ok token)
        × (u.role ≡ user)
        × (u.username ≡ username)
        × (u.password_hash ≡ hash_password S password)
        × (E.users.rows (register J E S username password clock w).1.db.users
            ≡ E.users.rows w.db.users ++ u ∷ [])
        × (any (has_username username) (E.users.rows w.db.users) ≡ false)
  unfolding register
  register_lem w u token done = elim (Bool-cases (is_too_short username password)) [
    | inl short ↦ absurd (ground arith)
    | inr long ↦
        elim (Result-cases (E.users.create (new_user S username password user) w.db.users)) [
          | inr (e, refused) ↦ absurd (ground arith)
          | inl ((row, s), made) ↦ elim (Result-cases (sign_token J S row clock)) [
            | inr (e, unsigned) ↦ absurd (ground arith)
            | inl (t, signed) ↦
                (let (shape, rows, fresh) =
                    E.users.create_ok (new_user S username password user) w.db.users row s made in
                  let own : row ≡ u = ground arith in
                  let same : ◌≡◌ {A = Text} t token = ground arith in
                  let last : (register J E S username password clock w).1.db.users ≡ s =
                    ground arith in
                  (
                    subst (λ v. sign_token J S v clock ≡ ok token) own (signed ∙ ap ok same),
                    ap (λ v. v.role) (sym own ∙ shape),
                    ap (λ v. v.username) (sym own ∙ shape),
                    ap (λ v. v.password_hash) (sym own ∙ shape),
                    ap E.users.rows last ∙ rows ∙ ap (λ v. E.users.rows w.db.users ++ v ∷ []) own,
                    fresh,
                  ))
          ]
        ]
  ]

  module _ (w : World E) (u : User) (token : Text)
      (done : (register J E S username password clock w).0 ≡ ok (u, token)) where
    registered_found :
        (r : User)
        → E.users.first
            (has_username username)
            (register J E S username password clock w).1.db.users
          ≡ ok r
        → r ≡ u
    registered_found r found =
        let (signed, role, name, hash, rows, fresh) = register_lem w u token done in
        let after = (register J E S username password clock w).1.db.users in
        let own : has_username username u ≡ true =
          ap (text_eq username) name ∙ text_eq_refl username in
        let here =
          find_first-append_fresh (has_username username) (E.users.rows w.db.users) u fresh own in
        let there =
          ap (find_first (has_username username)) (sym rows)
          ∙ E.users.first_ok (has_username username) after r found in
        ground arith

    -- After a registration that reports no error, and when the table can be read, a login under the
    -- name gives the registered user and a token of theirs exactly when the password's hash is that of
    -- the registered password, and is refused otherwise.
    pub register-login :
        (password' : Text) (clock' : Clock) (r : User)
        → E.users.first
            (has_username username)
            (register J E S username password clock w).1.db.users
          ≡ ok r
        → (login J E S username password' clock' (register J E S username password clock w).1).0 ≡ (
            if text_eq (hash_password S password) (hash_password S password')
            then with_token u (sign_token J S u clock')
            else err (failure (codes "invalid username or password")))
    unfolding login_answer is_valid_user_role
    register-login password' clock' r found =
        let (signed, role, name, hash, rows, fresh) = register_lem w u token done in
        let own = registered_found r found in
        let same : ◌≡◌ {A = User} (record u { role = known_role u.role }) u =
          ap (λ x. record u { role = known_role x }) role
          ∙ ap (λ x. record u { role = x }) (sym role) in
        login_found J E S username password' clock' (register J E S username password clock w).1 r
          found
        ∙ ap (login_answer J E S username password' clock') own
        ∙ rw (same, hash) refl

    -- A user who registered runs no handler behind the check for administrators with the token of the
    -- registration, at any time and whatever else the request holds: the answer is 401 or 403.
    pub register-KeptOut :
        {A T : Type 0} (next : Chain A T) (c : Context A) (s : T) (now : ℤ)
        → IsBearer J S u clock token c
        → c.response ≡ none
        → KeptOut s (auth J S.jwt_secret now (require_role (admin ∷ []) next) (c, s))
    unfolding is_valid_user_role
    register-KeptOut next c s now held fresh =
        let (signed, role, name, hash, rows, new) = register_lem w u token done in
        sign_token-KeptOut J S u clock token next c s now signed (ap known_role role) held fresh

module _ (J : Jwt) (E : Env) (S : AuthService) (username password : Text) (clock : Clock) where
  -- A login that reports no error has found a row, with the password's hash.
  login_lem :
      (w : World E) (u : User) (token : Text)
      → (login J E S username password clock w).0 ≡ ok (u, token)
      → (sign_token J S u clock ≡ ok token) × (0 < u.id) × (known_role u.role ≡ u.role)
  unfolding login_answer
  login_lem w u token done =
      elim (Result-cases (E.users.first (has_username username) w.db.users)) [
        | inr (e, missing) ↦
            absurd (login_missing J E S username password clock w u token e missing done)
        | inl (r, found) ↦
            (let answer = sym (login_found J E S username password clock w r found) ∙ done in
              let r' : User = record r { role = known_role r.role } in
              let key : 0 < r.id =
                All-find_first (λ v. 0 < v.id) (has_username username) (E.users.rows w.db.users) r
                  (E.users.id_pos w.db.users)
                  (E.users.first_ok (has_username username) w.db.users r found) in
              elim (Result-cases (sign_token J S r' clock)) [
                | inr (e, unsigned) ↦ absurd (ground arith)
                | inl (t, signed) ↦
                    (let own : r' ≡ u = ground arith in
                      let same : ◌≡◌ {A = Text} t token = ground arith in
                      (
                        subst (λ v. sign_token J S v clock ≡ ok token) own (signed ∙ ap ok same),
                        subst (λ v. 0 < v.id) own key,
                        subst (λ v. known_role v.role ≡ v.role) own (known_role_twice r.role),
                      ))
              ])
      ]

  -- After a login that reports no error, a request with its token is admitted under the user's key and
  -- role until a second before a day is over.
  pub login-auth :
      {A T : Type 0} (next : Chain A T) (c : Context A) (s : T) (now : ℤ) (w : World E) (u : User)
      (token : Text)
      → (login J E S username password clock w).0 ≡ ok (u, token)
      → now +ℤ pos 1_000_000_000 ≤ℤ clock.expiry_now +ℤ one_day
      → IsBearer J S u clock token c
      → auth J S.jwt_secret now next (c, s)
        ≡ next (record c { user_id = some u.id; user_role = some u.role }, s)
  login-auth next c s now w u token done early held =
      let (signed, key, known) = login_lem w u token done in
      sign_token-auth J S u clock token next c s now signed key early held
      ∙ ap (λ r. next (record c { user_id = some u.id; user_role = some r }, s)) known
