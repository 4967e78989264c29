-- ===== src/Tests/Server.antt =====
-- A Redis server in memory; `fate` is what happens to a request.
use go_order_lab.Prelude.{
  ◌≡◌, refl, sym, ap, ◌∙◌, Bool, true, false, Option, none, some, Result, ok, err, Error, failure,
  ℤ, pos, ◌+ℤ◌, ◌-ℤ◌, Text, codes, text_eq, text_eq_refl, if◌then◌else◌, int_laws, arith,
  Option-cases, inl, inr,
}
use go_order_lab.Redis.Commands.{Redis, Value, number, as_number}

pub record Server : Type 0 where
  pub values : Text → Option Value
  pub members : Text → Text → Bool
  pub fate : Option Error

abbrev pub put : Text → Value → Server → Server
put k v s = record s { values = λ j. if text_eq k j then some v else s.values j }

abbrev pub mark : Text → Text → Bool → Server → Server
mark k m b s = record s {
  members =
      λ j n. if text_eq k j then (if text_eq m n then b else s.members j n) else s.members j n;
}

abbrev pub count_by : (ℤ → ℤ) → Text → Server → Result ℤ × Server
count_by f k s = elim (as_number (s.values k)) [
  | none ↦ (err (failure (codes "value is not an integer")), s)
  | some n ↦ (ok (f n), put k (number (f n)) s)
]

count_by_ok :
    (f : ℤ → ℤ) (k : Text) (s : Server) (n : ℤ) (s' : Server)
    → count_by f k s ≡ (ok n, s')
    → (v : ℤ) × (as_number (s.values k) ≡ some v)
      × (n ≡ f v)
      × (s'.values k ≡ some (number n))
      × ((j m : Text) → s'.members j m ≡ s.members j m)
count_by_ok f k s n s' h = elim (Option-cases (as_number (s.values k))) [
  | inl e ↦ absurd (ground arith)
  | inr (v, e) ↦
      (let run : ◌≡◌ {A = Result ℤ × Server} (ok (f v), put k (number (f v)) s) (ok n, s') =
          rw (count_by, e) at h in
        let value : n ≡ f v = ground arith in
        let state : s' ≡ put k (number (f v)) s = sym (ap (λ p. p.1) run) in
        (
          v,
          e,
          value,
          rw (state, text_eq_refl k) (ap (λ x. some (number x)) (sym value)),
          λ j m. rw state refl,
        ))
]

pub increment_ok :
    (k : Text) (s : Server) (n : ℤ) (s' : Server)
    → count_by (λ n. n +ℤ pos 1) k s ≡ (ok n, s')
    → (as_number (s.values k) ≡ some (n -ℤ pos 1))
      × (s'.values k ≡ some (number n))
      × ((j m : Text) → text_eq k j ≡ false → s'.members j m ≡ s.members j m)
increment_ok k s n s' h =
    let (v, before, value, after, same) = count_by_ok (λ n. n +ℤ pos 1) k s n s' h in
    (before ∙ ap some (grind (int_laws, value)), after, λ j m _. same j m)

pub decrement_ok :
    (k : Text) (s : Server) (n : ℤ) (s' : Server)
    → count_by (λ n. n -ℤ pos 1) k s ≡ (ok n, s')
    → (as_number (s.values k) ≡ some (n +ℤ pos 1))
      × (s'.values k ≡ some (number n))
      × ((j m : Text) → text_eq k j ≡ false → s'.members j m ≡ s.members j m)
decrement_ok k s n s' h =
    let (v, before, value, after, same) = count_by_ok (λ n. n -ℤ pos 1) k s n s' h in
    (before ∙ ap some (grind (int_laws, value)), after, λ j m _. same j m)

abbrev pub server : Redis
server = record {
  State = Server;
  send = λ s. s.fate;
  receive = λ s. none;
  get = λ k s. s.values k;
  is_member = λ k m s. s.members k m;
  set = λ k n ttl s. put k (number n) s;
  expire = λ k ttl s. s;
  add = λ k m s. mark k m true s;
  remove = λ k m s. (s.members k m, mark k m false s);
  increment = count_by (λ n. n +ℤ pos 1);
  decrement = count_by (λ n. n -ℤ pos 1);
  get-set = λ k n ttl s j h. refl;
  is_member-set = λ k n ttl s j m h. refl;
  get-expire = λ k ttl s j h. refl;
  is_member-expire = λ k ttl s j m h. refl;
  get-add = λ k m s j h. refl;
  is_member-add = λ k m s n. rw (text_eq_refl k) refl;
  get-remove = λ k m s j h. refl;
  is_member-remove = λ k m s n. rw (text_eq_refl k) refl;
  remove_hit = λ k m s. refl;
  increment_ok = increment_ok;
  decrement_ok = decrement_ok;
}

-- A server that holds nothing.
abbrev pub empty_server : Server
empty_server = record { values = λ k. none; members = λ k m. false; fate = none }
