-- ===== src/Pressure/Report.antt =====
-- `summarize` and `percentile` of cmd/pressure/main.go. `none` is the panic of an index out of range.
use go_order_lab.Prelude.{
  ℕ, ◌+◌, ◌≡◌, ◌↔◌, Bool, true, ◌||◌, Option, none, some, List, [], ◌∷◌, map, ℤ, pos, negsuc, ltb_ℤ,
  ◌-ℤ◌, Text, text_eq, text_eq-eq, text_eq_refl, length, get_elem?, leb, ◌==◌, ==_iff,
  if◌then◌else◌, subst,
}
use go_order_lab.Floats.{Floats}
use go_order_lab.Metrics.Counts.{Keys, get, modify}
use go_order_lab.Metrics.Keys.{sort_by}
use go_order_lab.Pressure.Load.{Sample}

-- The keys of the maps.
abbrev pub statuses : Keys ℕ
statuses = record { eq = ◌==◌; eq_iff = ==_iff }

pub text_eq_iff : (a b : Text) → (text_eq a b ≡ true) ↔ (a ≡ b)
text_eq_iff a b = (text_eq-eq a b, λ e. subst (λ t. text_eq a t ≡ true) e (text_eq_refl a))

abbrev pub messages : Keys Text
messages = record { eq = text_eq; eq_iff = text_eq_iff }

-- `m[k]++`
abbrev pub add_one : {K : Type 0} → Keys K → K → List (K × ℕ) → List (K × ℕ)
add_one E = modify E 0 (λ n. n + 1)

abbrev pub get_at {ℓ} : {A : Type ℓ} → List A → ℤ → Option A
get_at xs (pos i) = get_elem? xs i
get_at xs (negsuc i) = none

abbrev pub is_system_error : Sample → Bool
is_system_error s = s.failed || leb 500 s.status

infixl 5 ◌>>=◌
abbrev ◌>>=◌ : {A B : Type 0} → Option A → (A → Option B) → Option B
none >>= f = none
some a >>= f = f a

module _ (R : Floats) where
  open R use {F, of_int, thousandths, add, mul, div}

  pub record Report : Type 0 where
    pub name : Text
    pub workers : ℤ
    pub requests : ℕ
    pub elapsed_seconds : F
    pub qps : F
    pub accepted_qps : F
    pub mean_ms : F
    pub p50_ms : F
    pub p95_ms : F
    pub p99_ms : F
    pub max_ms : F
    pub system_errors : ℕ
    pub system_error_rate : F
    pub statuses : List (ℕ × ℕ)
    pub messages : List (Text × ℕ)

  abbrev pub zero_float : F
  zero_float = of_int (pos 0)

  abbrev pub new_report : Text → ℤ → ℤ → ℕ → Report
  new_report name workers elapsed requests = record {
    name = name;
    workers = workers;
    requests = requests;
    elapsed_seconds = R.seconds elapsed;
    qps = zero_float;
    accepted_qps = zero_float;
    mean_ms = zero_float;
    p50_ms = zero_float;
    p95_ms = zero_float;
    p99_ms = zero_float;
    max_ms = zero_float;
    system_errors = 0;
    system_error_rate = zero_float;
    statuses = [];
    messages = [];
  }

  abbrev pub milliseconds : Sample → F
  milliseconds s = div (of_int s.latency) (of_int (pos 1_000_000))

  -- The body of the loop over the samples, but for the list of the latencies.
  abbrev pub tally : Sample → Report → Report
  tally s r = record r {
    statuses = add_one statuses s.status r.statuses;
    messages = add_one messages s.message r.messages;
    system_errors = if is_system_error s then r.system_errors + 1 else r.system_errors;
    mean_ms = add r.mean_ms (milliseconds s);
  }

  unfoldable pub tally_all : List Sample → Report → Report
  tally_all [] r = r
  tally_all (s ∷ ss) r = tally_all ss (tally s r)

  unfoldable pub percentile : List F → F → Option F
  percentile [] p = some zero_float
  percentile (x ∷ xs) p = get_at (x ∷ xs) (R.ceil (mul p (of_int (pos (length (x ∷ xs))))) -ℤ pos 1)

  unfoldable pub sorted_latencies : List Sample → List F
  unfolding sort_by
  sorted_latencies samples = sort_by R.leb (map milliseconds samples)

  abbrev pub with_rates : ℤ → ℕ → Report → Report
  with_rates elapsed n r =
      if ltb_ℤ (pos 0) elapsed
      then record r {
        qps = div (of_int (pos n)) (R.seconds elapsed);
        accepted_qps = div (of_int (pos (get statuses 0 202 r.statuses))) (R.seconds elapsed);
      }
      else r

  abbrev pub completed : ℤ → ℕ → Report → (p50 p95 p99 most : F) → Report
  completed elapsed n r p50 p95 p99 most = with_rates elapsed n (record r {
    mean_ms = div r.mean_ms (of_int (pos n));
    p50_ms = p50;
    p95_ms = p95;
    p99_ms = p99;
    max_ms = most;
    system_error_rate = div (of_int (pos r.system_errors)) (of_int (pos n));
  })

  -- What follows the loop.
  unfoldable pub finish : ℤ → List F → Report → Option Report
  unfolding percentile
  finish elapsed latencies r = percentile latencies (thousandths 500) >>= λ p50.
      percentile latencies (thousandths 950) >>= λ p95.
      percentile latencies (thousandths 990) >>= λ p99.
      get_at latencies (pos (length latencies) -ℤ pos 1) >>= λ most.
      some (completed elapsed (length latencies) r p50 p95 p99 most)

  unfoldable pub summarize : Text → ℤ → ℤ → List Sample → Option Report
  unfolding tally_all sorted_latencies finish
  summarize name workers elapsed [] = some (new_report name workers elapsed 0)
  summarize name workers elapsed (s ∷ ss) =
      finish elapsed (sorted_latencies (s ∷ ss))
        (tally_all (s ∷ ss) (new_report name workers elapsed (length (s ∷ ss))))
