-- ===== src/Metrics/Keys.antt =====
-- The keys of the maps in internal/metrics/metrics.go, their equality and their order.
use go_order_lab.Prelude.{
  ◌≡◌, ◌↔◌, ap, ◌∙◌, sym, Bool, true, false, ◌&&◌, List, [], ◌∷◌, Text, text_eq, text_eq-eq,
  text_eq_refl, ltb, ◌==◌, if◌then◌else◌, arith,
}
use go_order_lab.Metrics.Counts.{Keys}

pub record RequestKey : Type 0 where
  pub method : Text
  pub path : Text
  pub status : Text

pub record BusinessKey : Type 0 where
  pub event : Text
  pub result : Text

pub record BucketKey : Type 0 where
  pub request : RequestKey
  pub le : Text

text_eq_iff : (s t : Text) → (text_eq s t ≡ true) ↔ (s ≡ t)
text_eq_iff s t = (text_eq-eq s t, λ e. ap (text_eq s) (sym e) ∙ text_eq_refl s)

abbrev pub request_eq : RequestKey → RequestKey → Bool
request_eq a b = text_eq a.method b.method && (text_eq a.path b.path && text_eq a.status b.status)

abbrev pub business_eq : BusinessKey → BusinessKey → Bool
business_eq a b = text_eq a.event b.event && text_eq a.result b.result

pub request_eq_iff : (a b : RequestKey) → (request_eq a b ≡ true) ↔ (a ≡ b)
request_eq_iff a b = (
  λ h. ground (
    arith,
    text_eq_iff a.method b.method,
    text_eq_iff a.path b.path,
    text_eq_iff a.status b.status,
  ),
  λ h. ground (
    arith,
    text_eq_iff a.method b.method,
    text_eq_iff a.path b.path,
    text_eq_iff a.status b.status,
  ),
)

pub business_eq_iff : (a b : BusinessKey) → (business_eq a b ≡ true) ↔ (a ≡ b)
business_eq_iff a b = (
  λ h. ground (arith, text_eq_iff a.event b.event, text_eq_iff a.result b.result),
  λ h. ground (arith, text_eq_iff a.event b.event, text_eq_iff a.result b.result),
)

abbrev pub bucket_eq : BucketKey → BucketKey → Bool
bucket_eq a b = request_eq a.request b.request && text_eq a.le b.le

pub bucket_eq_iff : (a b : BucketKey) → (bucket_eq a b ≡ true) ↔ (a ≡ b)
bucket_eq_iff a b = (
  λ h. ground (arith, request_eq_iff a.request b.request, text_eq_iff a.le b.le),
  λ h. ground (arith, request_eq_iff a.request b.request, text_eq_iff a.le b.le),
)

abbrev pub request_keys : Keys RequestKey
request_keys = record { eq = request_eq; eq_iff = request_eq_iff }

abbrev pub business_keys : Keys BusinessKey
business_keys = record { eq = business_eq; eq_iff = business_eq_iff }

abbrev pub bucket_keys : Keys BucketKey
bucket_keys = record { eq = bucket_eq; eq_iff = bucket_eq_iff }

-- `s < t` on Go strings: by bytes.
unfoldable pub text_less : Text → Text → Bool
text_less s [] = false
text_less [] (b ∷ t) = true
text_less (a ∷ s) (b ∷ t) = if a == b then text_less s t else ltb a b

abbrev pub before_request : RequestKey → RequestKey → Bool
before_request a b =
    if text_eq a.path b.path
    then (if text_eq a.method b.method
        then text_less a.status b.status
        else text_less a.method b.method)
    else text_less a.path b.path

abbrev pub before_business : BusinessKey → BusinessKey → Bool
before_business a b =
    if text_eq a.event b.event then text_less a.result b.result else text_less a.event b.event

-- `sort.Slice`: keys of a map differ, so an order that tells all keys apart has one result.
module _ {K : Type 0} (less : K → K → Bool) where
  abbrev pub insert : K → List K → List K
  insert x [] = x ∷ []
  insert x (y ∷ ys) = if less x y then x ∷ y ∷ ys else y ∷ insert x ys

  unfoldable pub sort_by : List K → List K
  sort_by [] = []
  sort_by (x ∷ xs) = insert x (sort_by xs)
