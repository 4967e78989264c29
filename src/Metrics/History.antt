-- ===== src/Metrics/History.antt =====
-- The counters after any number of calls, against a count of the calls themselves.
use go_order_lab.Prelude.{
  ℕ, ◌<◌, ◌≤◌, ◌^◌, ◌≡◌, refl, Bool, true, false, ◌&&◌, List, [], ◌∷◌, ℤ, Text, ◌==◌, if◌then◌else◌,
  length, arith,
}
use go_order_lab.Floats.{Floats}
use go_order_lab.Store.Rows.{All, count, any}
use go_order_lab.Metrics.Keys.{
  RequestKey, BusinessKey, request_eq, business_eq, request_keys, business_keys, bucket_keys,
}
use go_order_lab.Metrics.Counts.{count_of, count_of-bump, increment, run_all, run_all_counts}
use go_order_lab.Metrics.{
  Store, new_store, latency_bins, bucket, request_key, observe_http_request, inc_business_event,
}
use go_order_lab.Metrics.Histogram.{bins_present}

-- The arguments of one call of `ObserveHTTPRequest` or `IncBusinessEvent`.
pub data Observation : Type 0 where
  request : (method path : Text) (status duration : ℤ) → Observation
  event : (name result : Text) → Observation

module _ (R : Floats) where
  open R use {thousandths, leb}

  abbrev pub observe : Observation → Store R → Store R
  observe (request method path status duration) = observe_http_request R method path status duration
  observe (event name result) = inc_business_event R name result

  abbrev pub is_request : RequestKey → Observation → Bool
  is_request k (request method path status duration) = request_eq (request_key method path status) k
  is_request k (event name result) = false

  abbrev pub is_within : RequestKey → ℕ → Observation → Bool
  is_within k bin (request method path status duration) =
      request_eq (request_key method path status) k && leb (R.seconds duration) (thousandths bin)
  is_within k bin (event name result) = false

  abbrev pub is_event : BusinessKey → Observation → Bool
  is_event k (request method path status duration) = false
  is_event k (event name result) = business_eq (record { event = name; result = result }) k

  abbrev pub requests : RequestKey → Store R → ℕ
  requests k s = count_of request_keys k s.http_requests

  abbrev pub within : RequestKey → ℕ → Store R → ℕ
  within k bin s = count_of bucket_keys (bucket R k bin) s.http_duration

  abbrev pub events : BusinessKey → Store R → ℕ
  events k s = count_of business_keys k s.business_events

  abbrev pub is_bin : ℕ → Bool
  is_bin bin = any (λ b. b == bin) latency_bins

  bin_once : (bin : ℕ) → is_bin bin ≡ true → count (λ b. b == bin) latency_bins ≡ 1
  bin_once bin h = ground arith

  bin_small : (bin : ℕ) → is_bin bin ≡ true → bin ≤ 2 ^ 30
  bin_small bin h = ground arith

  bins_small : All (λ a. a ≤ 2 ^ 30) latency_bins
  bins_small = ground arith

  requests_step :
      (k : RequestKey) (o : Observation) (s : Store R)
      → requests k (observe o s)
        ≡ (if is_request k o then increment (requests k s) else requests k s)
  unfolding observe_http_request inc_business_event
  requests_step k (request method path status duration) s =
      count_of-bump request_keys (request_key method path status) k s.http_requests
  requests_step k (event name result) s = refl

  within_step :
      (k : RequestKey) (bin : ℕ)
      → is_bin bin ≡ true
      → (o : Observation) (s : Store R)
      → within k bin (observe o s)
        ≡ (if is_within k bin o then increment (within k bin s) else within k bin s)
  unfolding observe_http_request inc_business_event
  within_step k bin h (request method path status duration) s =
      bins_present R (request_key method path status) k (R.seconds duration) bin (bin_small bin h)
        latency_bins s.http_duration bins_small (bin_once bin h)
  within_step k bin h (event name result) s = refl

  events_step :
      (k : BusinessKey) (o : Observation) (s : Store R)
      → events k (observe o s) ≡ (if is_event k o then increment (events k s) else events k s)
  unfolding observe_http_request inc_business_event
  events_step k (request method path status duration) s = refl
  events_step k (event name result) s =
      count_of-bump business_keys (record { event = name; result = result }) k s.business_events

  -- After fewer than 2 ^ 64 calls each counter is the number of the calls that it stands for: those of a
  -- request's key, those of the key that were no slower than a bin, and those of an event's key.
  pub observe-counts :
      (calls : List Observation) (k : RequestKey) (bin : ℕ) (e : BusinessKey)
      → length calls < 2 ^ 64
      → is_bin bin ≡ true
      → (requests k (run_all observe calls (new_store R)) ≡ count (is_request k) calls)
        × (within k bin (run_all observe calls (new_store R)) ≡ count (is_within k bin) calls)
        × (events e (run_all observe calls (new_store R)) ≡ count (is_event e) calls)
  observe-counts calls k bin e fits h =
      let empty = new_store R in
      let r =
        run_all_counts observe (requests k) (is_request k) (requests_step k) calls empty
          (omega arith) in
      let b =
        run_all_counts observe (within k bin) (is_within k bin) (within_step k bin h) calls empty
          (omega arith) in
      let v =
        run_all_counts observe (events e) (is_event e) (events_step e) calls empty (omega arith) in
      (omega (arith, r), omega (arith, b), omega (arith, v))

  count_fewer :
      (p q : Observation → Bool) (calls : List Observation)
      → ((o : Observation) → p o ≡ true → q o ≡ true)
      → count p calls ≤ count q calls
  count_fewer p q [] h = omega arith
  count_fewer p q (o ∷ calls) h = ground (arith, count_fewer p q calls h, h o)

  is_within_later :
      (k : RequestKey) (low high : ℕ)
      → low ≤ high
      → (o : Observation) → is_within k low o ≡ true
      → is_within k high o ≡ true
  is_within_later k low high h (request method path status duration) inside =
      let further =
        R.leb_trans (R.seconds duration) (thousandths low) (thousandths high) (ground arith)
          (R.thousandths_mono low high h) in
      ground arith
  is_within_later k low high h (event name result) inside = cc

  is_within_request :
      (k : RequestKey) (bin : ℕ) (o : Observation)
      → is_within k bin o ≡ true
      → is_request k o ≡ true
  is_within_request k bin (request method path status duration) inside = ground arith
  is_within_request k bin (event name result) inside = cc

  -- The bins of a request's key are cumulative: a wider bin counts no less, and none more than the
  -- requests of the key.
  pub observe-cumulative :
      (calls : List Observation) (k : RequestKey) (low high : ℕ)
      → length calls < 2 ^ 64
      → is_bin low ≡ true
      → is_bin high ≡ true
      → low ≤ high
      → (within k low (run_all observe calls (new_store R))
          ≤ within k high (run_all observe calls (new_store R)))
        × (within k high (run_all observe calls (new_store R))
            ≤ requests k (run_all observe calls (new_store R)))
  observe-cumulative calls k low high fits l h order =
      let e : BusinessKey = record { event = []; result = [] } in
      let (total, below, _) = observe-counts calls k low e fits l in
      let (_, above, _) = observe-counts calls k high e fits h in
      let wider =
        count_fewer (is_within k low) (is_within k high) calls (is_within_later k low high order) in
      let all = count_fewer (is_within k high) (is_request k) calls (is_within_request k high) in
      (omega arith, omega arith)
