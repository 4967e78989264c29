-- ===== src/Tests/Loads.antt =====
-- The theorems on the load generator at concrete runs.
use mathlib.Core.List.{Perm}
use go_order_lab.Prelude.{
  ◌+ℤ◌, ◌-ℤ◌, ◌<ℤ◌, ltb_ℤ, wrap64, text_eq, ◌*◌, ◌+◌, ◌-◌, ◌^◌, ◌≤◌, ◌≡◌, ◌⊎◌, refl, sym, ap, ◌∙◌,
  true, false, List, [], ◌∷◌, map, ok, pos, arith, codes, Option, none, some,
}
use go_order_lab.Pressure.Load.{
  Sample, returned, Load, Plan, is_over, Step, take, finish, leave, started, Run, here, then_step,
  all_returned,
}
use go_order_lab.Metrics.Keys.{sort_by}
use go_order_lab.Pressure.Calls.{upto}
use go_order_lab.Pressure.Ends.{Run-calls, Run-ends}
use go_order_lab.Pressure.Report.{
  Report, new_report, summarize, tally_all, sorted_latencies, percentile, finish as finish_report,
}
use go_order_lab.Pressure.Percentiles.{Ordered, summarize-Ordered}
use go_order_lab.Pressure.Tally.{IsTally, summarize-IsTally}
use go_order_lab.Pressure.Batches.{Flags, is_invalid, batch_size, batch_count, quotient}
use go_order_lab.Pressure.Places.{InPlace, call_bounds}
use go_order_lab.Pressure.Verify.{
  ListedOrder, OrderList, StockReport, ListedActivity, Poll, got, verify,
}
use go_order_lab.Pressure.Answers.{Settled}
use go_order_lab.Pressure.Verdict.{Verified, verify-Verified}
use go_order_lab.Tests.Numbers.{numbers}

abbrev fine : Sample
fine = record { status = 202; message = codes "accepted"; latency = pos 3_000_000; failed = false }

abbrev one_call : Plan
one_call = record { count = 1; duration = pos 0; deadline = pos 0; call = λ i. fine }

abbrev ended : Load
ended = record { next = 1; results = fine ∷ []; workers = returned ∷ [] }

-- The worker takes the call, answers it and returns.
loaded : Run one_call (started 1) 3 ended
unfolding is_over
loaded =
    then_step 3 refl
      (then_step 2 refl (then_step 1 refl (here 0 refl) (take [] [] (pos 5) refl refl))
        (finish [] [] 0 refl))
      (leave [] [] (pos 6) refl refl)

Run-calls_example : Perm ended.results (map one_call.call (upto one_call.count))
Run-calls_example = Run-calls one_call refl 1 (omega arith) loaded refl

Run-ends_example :
    (3 ≤ 3 * one_call.count + 1)
    × ((all_returned ended.workers ≡ true) ⊎ ((u : Load) × Step one_call ended u))
Run-ends_example = Run-ends one_call refl 1 loaded

summarize-Ordered_example :
    (r : Report numbers) × (summarize numbers (codes "two") (pos 1) (pos 5) (fine ∷ fine ∷ [])
      ≡ some r)
    × Ordered numbers r
summarize-Ordered_example =
    summarize-Ordered numbers (codes "two") (pos 1) (pos 5) fine (fine ∷ []) (omega arith)

abbrev slow : Sample
slow = record { status = 503; message = codes "busy"; latency = pos 9_000_000; failed = false }

abbrev lost : Sample
lost = record { status = 0; message = codes "timeout"; latency = pos 1_000_000; failed = true }

abbrev measured : List Sample
measured = fine ∷ slow ∷ fine ∷ lost ∷ []

-- The report, or an empty one where none was made.
abbrev made : Option (Report numbers) → Report numbers
made none = new_report numbers [] (pos 0) (pos 0) 0
made (some r) = r

abbrev measured_report : Report numbers
measured_report = made (summarize numbers (codes "four") (pos 2) (pos 5_000_000_000) measured)

report_made :
    summarize numbers (codes "four") (pos 2) (pos 5_000_000_000) measured ≡ some measured_report
report_made =
    let (r, e, _) =
      summarize-Ordered numbers (codes "four") (pos 2) (pos 5_000_000_000) fine
        (slow ∷ fine ∷ lost ∷ []) (omega arith) in
    e ∙ ap (λ x. some (made x)) (sym e)

summarize-IsTally_example : IsTally numbers measured measured_report
summarize-IsTally_example =
    summarize-IsTally numbers (codes "four") (pos 2) (pos 5_000_000_000) measured measured_report
      report_made

-- The report counts the answer 503 and the call that failed as errors of the system.
two_errors : measured_report.system_errors ≡ 2
unfolding summarize tally_all sorted_latencies finish_report percentile sort_by ◌-ℤ◌
two_errors = refl

abbrev usual_flags : Flags
usual_flags = record {
  workers = pos 20;
  users = pos 200;
  stock = pos 30;
  duplicates = pos 100;
  writes = pos 1000;
  duration = pos 15_000_000_000;
}

flags_are_valid : is_invalid usual_flags ≡ false
unfolding is_invalid
flags_are_valid = refl

writes_fit : pos 1000 +ℤ pos 100 <ℤ pos (2 ^ 63)
unfolding ◌+ℤ◌
writes_fit = omega arith

call_bounds_example : InPlace (pos 200) (pos 1000) (pos 999)
call_bounds_example =
    call_bounds usual_flags (pos 999) flags_are_valid writes_fit (omega arith) (omega arith)

-- From 2 ^ 63 - 100 orders on, the length of the list is negative.
too_many : ltb_ℤ (batch_count (pos 200) (pos (2 ^ 63 - 1))) (pos 0) ≡ true
unfolding batch_count batch_size quotient wrap64 ◌+ℤ◌ ◌-ℤ◌
too_many = refl

abbrev waiting : ListedOrder
waiting = record { order_no = codes "AO1"; user_id = pos 7; status = codes "WAIT_PAY" }

abbrev one_listed : OrderList
one_listed = record { total = pos 1; items = waiting ∷ [] }

abbrev none_listed : OrderList
none_listed = record { total = pos 0; items = [] }

-- The order is queued at first.
abbrev two_rounds : List Poll
two_rounds =
    record { orders = ok one_listed; queued = ok one_listed; late = false }
    ∷ record { orders = ok one_listed; queued = ok none_listed; late = false }
    ∷ []

abbrev clean : StockReport
clean = record { checked = pos 1; missing = pos 0; mismatched = pos 0; items = pos 0 }

abbrev four_left : List ListedActivity
four_left = record { id = pos 3; stock = pos 4 } ∷ []

passed : verify (pos 3) (pos 5) (pos 1) two_rounds (ok clean) (ok four_left) ≡ got (codes "AO1")
unfolding verify ◌-ℤ◌ wrap64 text_eq
passed = refl

verify-Verified_example :
    (orders : OrderList) × Settled two_rounds orders
    × Verified (pos 3) (pos 5) (pos 1) (ok clean) (ok four_left) (codes "AO1") orders
verify-Verified_example =
    verify-Verified (pos 3) (pos 5) (pos 1) two_rounds (ok clean) (ok four_left) (codes "AO1")
      (omega arith, omega arith) (omega arith) (omega arith) passed

-- A listing without the activity passes where one order more than the stock was accepted.
unlisted : verify (pos 3) (pos 0) (pos 1) two_rounds (ok clean) (ok []) ≡ got (codes "AO1")
unfolding verify ◌-ℤ◌ wrap64 text_eq
unlisted = refl
