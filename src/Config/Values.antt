-- ===== src/Config/Values.antt =====
-- What the readers of internal/config/config.go give for one variable.
use go_order_lab.Prelude.{
  ◌≡◌, ◌≢◌, refl, sym, ap, ◌∙◌, Bool, true, false, Option, none, some, [], inl, inr, Bool-cases,
  Option-cases, ℤ, pos, negsuc, IsInt64, Text, codes, text_eq, text_eq-eq, text_eq_refl, atoi,
  atoi-decimal, atoi-negative, atoi-IsInt64, arith,
}
use go_order_lab.Floats.{Floats}
use go_order_lab.Orders.Service.{print_int}
use go_order_lab.Config.{getenv, read_or, getenv_int, parse_bool, getenv_bool, getenv_float}

abbrev pub print_bool : Bool → Text
print_bool true = codes "true"
print_bool false = codes "false"

text_eq-false : (s t : Text) → s ≢ t → text_eq s t ≡ false
text_eq-false s t h = elim (Bool-cases (text_eq s t)) [
  | inl e ↦ absurd (h (text_eq-eq s t e))
  | inr e ↦ e
]

pub getenv_set :
    (env : Text → Text) (key fallback : Text) → env key ≢ [] → getenv env key fallback ≡ env key
unfolding getenv
getenv_set env key fallback h = rw (text_eq-false (env key) [] h) refl

differ : {b : Bool} → b ≡ false → b ≡ true → ⊥
differ p q = cc

-- Where the fallback is empty, the value is what is set.
pub getenv_empty : (env : Text → Text) (key : Text) → getenv env key [] ≡ env key
unfolding getenv
getenv_empty env key = elim (Bool-cases (text_eq (env key) [])) [
  | inl e ↦ rw e (sym (text_eq-eq (env key) [] e))
  | inr e ↦ rw e refl
]

pub getenv_filled :
    (env : Text → Text) (key fallback : Text) → fallback ≢ [] → getenv env key fallback ≢ []
unfolding getenv
getenv_filled env key fallback h = elim (Bool-cases (text_eq (env key) [])) [
  | inl e ↦ rw e h
  | inr e ↦
      (let filled : env key ≢ [] = λ z. differ e (ap (λ s. text_eq s []) z ∙ text_eq_refl []) in
        rw e filled)
]

pub getenv_int-IsInt64 :
    (env : Text → Text) (key : Text) (fallback : ℤ)
    → IsInt64 fallback
    → IsInt64 (getenv_int env key fallback)
unfolding getenv_int
getenv_int-IsInt64 env key fallback h = elim (Bool-cases (text_eq (env key) [])) [
  | inl e ↦ rw e h
  | inr e ↦ elim (Option-cases (atoi (env key))) [
    | inl bad ↦ rw (e, bad) h
    | inr (n, good) ↦ rw (e, good) (atoi-IsInt64 (env key) n good)
  ]
]

read_or_set :
    {A : Type 0} (parse : Text → Option A) (fallback x : A) (value : Text)
    → value ≢ []
    → parse value ≡ some x
    → read_or parse fallback value ≡ x
read_or_set parse fallback x value h read = rw (text_eq-false value [] h, read) refl

print_int_read : (n : ℤ) → IsInt64 n → atoi (print_int n) ≡ some n
unfolding print_int
print_int_read (pos n) h = atoi-decimal n h.0
print_int_read (negsuc n) h = atoi-negative n (omega arith)

-- A text that is read as something is not empty.
read_some :
    {A : Type 0} (parse : Text → Option A) (s : Text) (x : A)
    → parse [] ≡ none
    → parse s ≡ some x
    → s ≢ []
read_some parse s x nothing read e = let clash = sym nothing ∙ ap parse (sym e) ∙ read in cc

print_int_some : (n : ℤ) → IsInt64 n → print_int n ≢ []
unfolding atoi
print_int_some n h = read_some atoi (print_int n) n refl (print_int_read n h)

pub getenv_int_set :
    (env : Text → Text) (key : Text) (fallback n : ℤ)
    → IsInt64 n
    → env key ≡ print_int n
    → getenv_int env key fallback ≡ n
unfolding getenv_int
getenv_int_set env key fallback n h e =
    rw e (read_or_set atoi fallback n (print_int n) (print_int_some n h) (print_int_read n h))

pub getenv_bool_set :
    (env : Text → Text) (key : Text) (fallback b : Bool)
    → env key ≡ print_bool b
    → getenv_bool env key fallback ≡ b
unfolding getenv_bool parse_bool text_eq
getenv_bool_set env key fallback true e = rw e refl
getenv_bool_set env key fallback false e = rw e refl

module _ (R : Floats) where
  pub getenv_float_set :
      (env : Text → Text) (key : Text) (fallback x : R.F)
      → R.format x ≢ []
      → env key ≡ R.format x
      → getenv_float R env key fallback ≡ x
  unfolding getenv_float
  getenv_float_set env key fallback x h e =
      rw e (read_or_set R.parse fallback x (R.format x) h (R.parse_format x))
