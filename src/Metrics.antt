-- ===== src/Metrics.antt =====
-- internal/metrics/metrics.go. The methods of the store take a lock, so they come one after the other.
pub mod Counts
pub mod Keys
pub mod Labels
pub mod Histogram
pub mod History
use go_order_lab.Prelude.{
  ℕ, Bool, true, false, ◌&&◌, List, [], ◌∷◌, ◌++◌, ℤ, pos, Text, codes, text_eq, decimal, ltb, ◌==◌,
  if◌then◌else◌, map,
}
use go_order_lab.Floats.{Floats}
use go_order_lab.Orders.Service.{print_int}
use go_order_lab.Metrics.Keys.{
  RequestKey, BusinessKey, BucketKey, request_keys, business_keys, bucket_keys, before_request,
  before_business, sort_by,
}
use go_order_lab.Metrics.Labels.{label_value}
use go_order_lab.Metrics.Counts.{get, modify, count_of, bump}

-- The upper bounds of the latency bins, in milliseconds.
abbrev pub latency_bins : List ℕ
latency_bins = 5 ∷ 10 ∷ 25 ∷ 50 ∷ 100 ∷ 250 ∷ 500 ∷ 1000 ∷ 2500 ∷ 5000 ∷ 10000 ∷ []

abbrev pub request_key : Text → Text → ℤ → RequestKey
request_key method path status = record { method = method; path = path; status = print_int status }

abbrev pub labels_of : RequestKey → Text
labels_of key =
    codes "method="
    ++ label_value key.method
    ++ (codes ",path=" ++ label_value key.path)
    ++ (codes ",status=" ++ label_value key.status)

abbrev pub keys_of : {K V : Type 0} → List (K × V) → List K
keys_of [] = []
keys_of ((k, v) ∷ m) = k ∷ keys_of m

abbrev pub lines : {K : Type 0} → (K → Text) → List K → Text
lines f [] = []
lines f (k ∷ ks) = f k ++ lines f ks

abbrev pub newline : Text
newline = 10 ∷ []

module _ (R : Floats) where
  open R use {F, of_int, thousandths, leb, add, format}

  pub record Store : Type 0 where
    pub http_requests : List (RequestKey × ℕ)
    pub http_duration_sum : List (RequestKey × F)
    pub http_duration : List (BucketKey × ℕ)
    pub business_events : List (BusinessKey × ℕ)

  abbrev pub new_store : Store
  new_store = record {
    http_requests = [];
    http_duration_sum = [];
    http_duration = [];
    business_events = [];
  }

  abbrev pub bucket : RequestKey → ℕ → BucketKey
  bucket key bin = record { request = key; le = format (thousandths bin) }

  -- Each bin that is not below the latency counts the request.
  unfoldable pub observe_bins :
      RequestKey → F → List ℕ → List (BucketKey × ℕ) → List (BucketKey × ℕ)
  observe_bins key seconds [] m = m
  observe_bins key seconds (bin ∷ bins) m =
      observe_bins key seconds bins
        (if leb seconds (thousandths bin) then bump bucket_keys (bucket key bin) m else m)

  unfoldable pub observe_http_request : Text → Text → ℤ → ℤ → Store → Store
  unfolding observe_bins
  observe_http_request method path status duration s =
      let key = request_key method path status in
      let seconds = R.seconds duration in
      record s {
        http_requests = bump request_keys key s.http_requests;
        http_duration_sum =
            modify request_keys (of_int (pos 0)) (λ x. add x seconds) key s.http_duration_sum;
        http_duration = observe_bins key seconds latency_bins s.http_duration;
      }

  unfoldable pub inc_business_event : Text → Text → Store → Store
  inc_business_event event result s = record s {
    business_events =
        bump business_keys (record { event = event; result = result }) s.business_events;
  }

  unfoldable pub request_line : Store → RequestKey → Text
  request_line s key =
      codes "go_order_http_requests_total{"
      ++ labels_of key
      ++ codes "} "
      ++ decimal (count_of request_keys key s.http_requests)
      ++ newline

  abbrev pub bucket_line : RequestKey → Text → ℕ → Text
  bucket_line key le n =
      codes "go_order_http_request_duration_seconds_bucket{"
      ++ labels_of key
      ++ (codes ",le=" ++ label_value le)
      ++ codes "} "
      ++ decimal n
      ++ newline

  -- The buckets of a request in their order, the one without bound, the sum and the count.
  unfoldable pub histogram_lines : Store → RequestKey → Text
  histogram_lines s key =
      lines
        (λ bin.
          bucket_line key (format (thousandths bin))
            (count_of bucket_keys (bucket key bin) s.http_duration))
        latency_bins
      ++ bucket_line key (codes "+Inf") (count_of request_keys key s.http_requests)
      ++ (codes "go_order_http_request_duration_seconds_sum{"
          ++ labels_of key
          ++ codes "} "
          ++ format (get request_keys (of_int (pos 0)) key s.http_duration_sum)
          ++ newline)
      ++ (codes "go_order_http_request_duration_seconds_count{"
          ++ labels_of key
          ++ codes "} "
          ++ decimal (count_of request_keys key s.http_requests)
          ++ newline)

  unfoldable pub event_line : Store → BusinessKey → Text
  event_line s key =
      codes "go_order_business_events_total{event="
      ++ label_value key.event
      ++ (codes ",result=" ++ label_value key.result)
      ++ codes "} "
      ++ decimal (count_of business_keys key s.business_events)
      ++ newline

  unfoldable pub render_prometheus : Store → Text
  unfolding request_line histogram_lines event_line
  render_prometheus s =
      let requests = sort_by before_request (keys_of s.http_requests) in
      codes "# HELP go_order_http_requests_total Total HTTP requests handled by the service."
      ++ newline
      ++ (codes "# TYPE go_order_http_requests_total counter" ++ newline)
      ++ lines (request_line s) requests
      ++ (codes "# HELP go_order_http_request_duration_seconds HTTP request latency histogram."
          ++ newline)
      ++ (codes "# TYPE go_order_http_request_duration_seconds histogram" ++ newline)
      ++ lines (histogram_lines s) requests
      ++ (codes "# HELP go_order_business_events_total Business events emitted by order workflows."
          ++ newline)
      ++ (codes "# TYPE go_order_business_events_total counter" ++ newline)
      ++ lines (event_line s) (sort_by before_business (keys_of s.business_events))
