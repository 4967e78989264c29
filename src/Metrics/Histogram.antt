-- ===== src/Metrics/Histogram.antt =====
-- The counters of requests and of latency bins after any number of requests.
use go_order_lab.Prelude.{
  ℕ, ◌<◌, ◌≤◌, ◌^◌, ◌≡◌, refl, sym, ap, ◌∙◌, Bool, true, false, ◌&&◌, some, List, [], ◌∷◌, ℤ, Text,
  text_eq, text_eq_refl, text_eq-eq, ◌==◌, ==_iff, if◌then◌else◌, arith, Bool-cases, inl, inr,
}
use go_order_lab.Floats.{Floats}
use go_order_lab.Store.Rows.{count, All}
use go_order_lab.Metrics.Keys.{RequestKey, BucketKey, request_eq, bucket_eq, bucket_keys}
use go_order_lab.Metrics.Counts.{count_of, bump, count_of-bump, increment}
use go_order_lab.Metrics.{bucket, request_key, observe_bins}

-- The arguments of one call of `ObserveHTTPRequest`.
pub record Observation : Type 0 where
  pub method : Text
  pub path : Text
  pub status : ℤ
  pub duration : ℤ

abbrev pub key_of : Observation → RequestKey
key_of o = request_key o.method o.path o.status

module _ (R : Floats) where
  open R use {F, thousandths, leb, format}

  distinct : (a b : ℕ) → a < b → b ≤ 2 ^ 30 → leb (thousandths b) (thousandths a) ≡ true → ⊥
  distinct a b less fits same = let strict = R.thousandths_strict a b less fits in ground arith

  same_value : (a b : ℕ) → a ≤ 2 ^ 30 → b ≤ 2 ^ 30 → thousandths a ≡ thousandths b → (a == b) ≡ true
  same_value a b fits fits' value =
      let up = ap (leb (thousandths b)) value ∙ R.leb_refl (thousandths b) in
      let down = ap (λ x. leb x (thousandths b)) value ∙ R.leb_refl (thousandths b) in
      ground (arith, distinct a b, distinct b a)

  format_eq :
      (a b : ℕ)
      → a ≤ 2 ^ 30
      → b ≤ 2 ^ 30
      → text_eq (format (thousandths a)) (format (thousandths b)) ≡ (a == b)
  format_eq a b fits fits' = elim (Bool-cases (a == b)) [
    | inl same ↦
        ap (λ x. text_eq (format (thousandths a)) (format (thousandths x)))
          (sym ((==_iff a b).0 same))
        ∙ text_eq_refl (format (thousandths a))
        ∙ sym same
    | inr apart ↦ elim (Bool-cases (text_eq (format (thousandths a)) (format (thousandths b)))) [
      | inr other ↦ other ∙ sym apart
      | inl printed ↦
          (let text = text_eq-eq (format (thousandths a)) (format (thousandths b)) printed in
            let read : some (thousandths a) ≡ some (thousandths b) =
              sym (R.parse_format (thousandths a))
              ∙ ap R.parse text
              ∙ R.parse_format (thousandths b) in
            let value : thousandths a ≡ thousandths b = ground arith in
            printed ∙ sym (same_value a b fits fits' value))
    ]
  ]

  bucket_eq_bin :
      (key k : RequestKey) (a b : ℕ)
      → a ≤ 2 ^ 30
      → b ≤ 2 ^ 30
      → bucket_eq (bucket R key a) (bucket R k b) ≡ (request_eq key k && a == b)
  bucket_eq_bin key k a b fits fits' = ap (λ t. request_eq key k && t) (format_eq a b fits fits')

  module _ (key k : RequestKey) (x : F) (b : ℕ) (own_fits : b ≤ 2 ^ 30) where
    abbrev pub counter : List (BucketKey × ℕ) → ℕ
    counter = count_of bucket_keys (bucket R k b)

    abbrev pub counted : Bool → ℕ → ℕ
    counted t n = if t then increment n else n

    abbrev visit : ℕ → List (BucketKey × ℕ) → List (BucketKey × ℕ)
    visit a m = if leb x (thousandths a) then bump bucket_keys (bucket R key a) m else m

    bump_bin :
        (a : ℕ) (m : List (BucketKey × ℕ))
        → a ≤ 2 ^ 30
        → counter (bump bucket_keys (bucket R key a) m)
          ≡ counted (request_eq key k && a == b) (counter m)
    bump_bin a m fits =
        count_of-bump bucket_keys (bucket R key a) (bucket R k b) m
        ∙ ap (λ t. if t then increment (counter m) else counter m)
            (bucket_eq_bin key k a b fits own_fits)

    visit_other :
        (a : ℕ) (m : List (BucketKey × ℕ))
        → a ≤ 2 ^ 30
        → (a == b) ≡ false
        → counter (visit a m) ≡ counter m
    visit_other a m fits other = elim (Bool-cases (leb x (thousandths a))) [
      | inr slow ↦ rw slow refl
      | inl fast ↦ rw fast (bump_bin a m fits ∙ rw other (ground arith))
    ]

    visit_own :
        (a : ℕ) (m : List (BucketKey × ℕ))
        → a ≤ 2 ^ 30
        → (a == b) ≡ true
        → counter (visit a m) ≡ counted (request_eq key k && leb x (thousandths b)) (counter m)
    visit_own a m fits own =
        let bin = ap (λ c. leb x (thousandths c)) ((==_iff a b).0 own) in
        elim (Bool-cases (leb x (thousandths a))) [
          | inr slow ↦
              (let slow' : leb x (thousandths b) ≡ false = sym bin ∙ slow in
                rw (slow, slow') (ground arith))
          | inl fast ↦
              (let fast' : leb x (thousandths b) ≡ true = sym bin ∙ fast in
                rw (fast, fast') (bump_bin a m fits ∙ rw own refl))
        ]

    -- A bin that is not among `bins` keeps its counter.
    bins_absent :
        (bins : List ℕ) (m : List (BucketKey × ℕ))
        → All (λ a. a ≤ 2 ^ 30) bins
        → count (λ a. a == b) bins ≡ 0
        → counter (observe_bins R key x bins m) ≡ counter m
    unfolding observe_bins
    bins_absent [] m fits absent = refl
    bins_absent (a ∷ bins) m fits absent =
        bins_absent bins (visit a m) fits.1 (ground arith) ∙ visit_other a m fits.0 (ground arith)

    -- A bin that stands there once counts a request of its key that is no slower.
    pub bins_present :
        (bins : List ℕ) (m : List (BucketKey × ℕ))
        → All (λ a. a ≤ 2 ^ 30) bins
        → count (λ a. a == b) bins ≡ 1
        → counter (observe_bins R key x bins m)
          ≡ counted (request_eq key k && leb x (thousandths b)) (counter m)
    unfolding observe_bins
    bins_present [] m fits once = absurd (ground arith)
    bins_present (a ∷ bins) m fits once = elim (Bool-cases (a == b)) [
      | inl own ↦ bins_absent bins (visit a m) fits.1 (ground arith) ∙ visit_own a m fits.0 own
      | inr other ↦
          bins_present bins (visit a m) fits.1 (ground arith)
          ∙ ap (counted (request_eq key k && leb x (thousandths b))) (visit_other a m fits.0 other)
    ]
