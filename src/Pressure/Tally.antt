-- ===== src/Pressure/Tally.antt =====
-- What the counters of a report of cmd/pressure/main.go count.
use go_order_lab.Prelude.{
  ℕ, ◌+◌, ◌≡◌, refl, sym, ap, ◌∙◌, Bool, some, List, [], ◌∷◌, length, arith, ℤ, pos, ltb_ℤ, ◌-ℤ◌,
  subst, Text, text_eq, ◌==◌, Option-cases, Bool-cases, inl, inr, if◌then◌else◌,
}
use go_order_lab.Floats.{Floats}
use go_order_lab.Store.Rows.{count}
use go_order_lab.Metrics.Counts.{Keys, get, get-modify}
use go_order_lab.Pressure.Load.{Sample}
use go_order_lab.Pressure.Report.{
  Report, statuses, messages, add_one, is_system_error, tally, tally_all, new_report, completed,
  finish, summarize, sorted_latencies, percentile, get_at, new_report, percentile, get_at,
  new_report,
}

module _ {K : Type 0} (E : Keys K) where
  get-add_one :
      (k j : K) (m : List (K × ℕ))
      → get E 0 j (add_one E k m) ≡ (if E.eq k j then get E 0 j m + 1 else get E 0 j m)
  get-add_one k j m = get-modify E 0 (λ n. n + 1) k j m ∙ elim (Bool-cases (E.eq k j)) [
    | inr other ↦ rw other refl
    | inl own ↦ rw own (ap (λ i. get E 0 i m + 1) ((E.eq_iff k j).0 own))
  ]

abbrev pub has_code : ℕ → Sample → Bool
has_code k s = s.status == k

abbrev pub has_message : Text → Sample → Bool
has_message t s = text_eq s.message t

none_before : (n : ℕ) → 0 + n ≡ n
none_before n = omega arith

some_injective {ℓ} : {A : Type ℓ} {a b : A} → some a ≡ some b → a ≡ b
some_injective e = cc

module _ (R : Floats) where
  -- The counters are those of so many samples.
  pub record IsTally (samples : List Sample) (r : Report R) : Type 0 where
    pub requests : r.requests ≡ length samples
    pub system_errors : r.system_errors ≡ count is_system_error samples
    pub codes : (k : ℕ) → get statuses 0 k r.statuses ≡ count (has_code k) samples
    pub texts : (t : Text) → get messages 0 t r.messages ≡ count (has_message t) samples

  tally_all_errors :
      (ss : List Sample) (r : Report R)
      → (tally_all R ss r).system_errors ≡ r.system_errors + count is_system_error ss
  unfolding tally_all
  tally_all_errors [] r = omega arith
  tally_all_errors (s ∷ ss) r = let rest = tally_all_errors ss (tally R s r) in ground arith

  tally_all_requests : (ss : List Sample) (r : Report R) → (tally_all R ss r).requests ≡ r.requests
  unfolding tally_all
  tally_all_requests [] r = refl
  tally_all_requests (s ∷ ss) r = tally_all_requests ss (tally R s r)

  tally_all_codes :
      (k : ℕ) (ss : List Sample) (r : Report R)
      → get statuses 0 k (tally_all R ss r).statuses
        ≡ get statuses 0 k r.statuses + count (has_code k) ss
  unfolding tally_all
  tally_all_codes k [] r = omega arith
  tally_all_codes k (s ∷ ss) r =
      let rest = tally_all_codes k ss (tally R s r) in
      let one = get-add_one statuses s.status k r.statuses in
      elim (Bool-cases (s.status == k)) [
        | inl own ↦ rest ∙ rw (one, own) (omega arith)
        | inr other ↦ rest ∙ rw (one, other) (omega arith)
      ]

  tally_all_texts :
      (t : Text) (ss : List Sample) (r : Report R)
      → get messages 0 t (tally_all R ss r).messages
        ≡ get messages 0 t r.messages + count (has_message t) ss
  unfolding tally_all
  tally_all_texts t [] r = omega arith
  tally_all_texts t (s ∷ ss) r =
      let rest = tally_all_texts t ss (tally R s r) in
      let one = get-add_one messages s.message t r.messages in
      elim (Bool-cases (text_eq s.message t)) [
        | inl own ↦ rest ∙ rw (one, own) (omega arith)
        | inr other ↦ rest ∙ rw (one, other) (omega arith)
      ]

  completed-IsTally :
      (elapsed : ℤ) (n : ℕ) (samples : List Sample) (r : Report R) (p50 p95 p99 most : R.F)
      → IsTally samples r
      → IsTally samples (completed R elapsed n r p50 p95 p99 most)
  completed-IsTally elapsed n samples r p50 p95 p99 most t =
      elim (Bool-cases (ltb_ℤ (pos 0) elapsed)) [
        | inl timed ↦ rw timed (record {
          requests = t.requests;
          system_errors = t.system_errors;
          codes = t.codes;
          texts = t.texts;
        })
        | inr instant ↦ rw instant (record {
          requests = t.requests;
          system_errors = t.system_errors;
          codes = t.codes;
          texts = t.texts;
        })
      ]

  finish-some :
      (elapsed : ℤ) (xs : List R.F) (r r' : Report R)
      → finish R elapsed xs r ≡ some r'
      → (p50 : R.F) × (p95 : R.F) × (p99 : R.F) × (most : R.F) × (r'
          ≡ completed R elapsed (length xs) r p50 p95 p99 most)
  unfolding finish
  finish-some elapsed xs r r' h = elim (Option-cases (percentile R xs (R.thousandths 500))) [
    | inl e ↦ absurd (ground arith)
    | inr (a, ea) ↦ elim (Option-cases (percentile R xs (R.thousandths 950))) [
      | inl e ↦ absurd (ground arith)
      | inr (b, eb) ↦ elim (Option-cases (percentile R xs (R.thousandths 990))) [
        | inl e ↦ absurd (ground arith)
        | inr (c, ec) ↦ elim (Option-cases (get_at xs (pos (length xs) -ℤ pos 1))) [
          | inl e ↦ absurd (ground arith)
          | inr (d, ed) ↦
              (let done = sym h ∙ rw (finish, ea, eb, ec, ed) refl in
                (a, b, c, d, some_injective done))
        ]
      ]
    ]
  ]

  finish-IsTally :
      (elapsed : ℤ) (xs : List R.F) (samples : List Sample) (r r' : Report R)
      → finish R elapsed xs r ≡ some r'
      → IsTally samples r
      → IsTally samples r'
  finish-IsTally elapsed xs samples r r' h t =
      let (a, b, c, d, same) = finish-some elapsed xs r r' h in
      subst (IsTally samples) (sym same) (completed-IsTally elapsed (length xs) samples r a b c d t)

  -- The report of any samples counts all of them, its system errors are the samples that failed or have
  -- a status from 500 on, and its maps hold how many samples have each status and each message.
  pub summarize-IsTally :
      (name : Text) (workers elapsed : ℤ) (samples : List Sample) (r : Report R)
      → summarize R name workers elapsed samples ≡ some r
      → IsTally samples r
  unfolding summarize
  summarize-IsTally name workers elapsed [] r h =
      subst (IsTally []) (some_injective h)
        (record { requests = refl; system_errors = refl; codes = λ k. refl; texts = λ t. refl })
  summarize-IsTally name workers elapsed (s ∷ ss) r h =
      let r0 = new_report R name workers elapsed (length (s ∷ ss)) in
      finish-IsTally elapsed (sorted_latencies R (s ∷ ss)) (s ∷ ss) (tally_all R (s ∷ ss) r0) r h
        (record {
          requests = tally_all_requests (s ∷ ss) r0;
          system_errors = tally_all_errors (s ∷ ss) r0 ∙ none_before _;
          codes = λ k. tally_all_codes k (s ∷ ss) r0 ∙ none_before _;
          texts = λ t. tally_all_texts t (s ∷ ss) r0 ∙ none_before _;
        })
