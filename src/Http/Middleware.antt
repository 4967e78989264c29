-- ===== src/Http/Middleware.antt =====
-- internal/middleware/timeout.go, trace.go and metrics.go. The access log is output only.
use go_order_lab.Prelude.{
  ℕ, Bool, true, false, not, ◌&&◌, Option, none, some, [], ◌++◌, ℤ, pos, leb_ℤ, Text, codes,
  text_eq, if◌then◌else◌,
}
use go_order_lab.Floats.{Floats}
use go_order_lab.Orders.Service.{print_int}
use go_order_lab.Metrics.{Store, observe_http_request}
use go_order_lab.Http.{Context, Handler, refuse}
use go_order_lab.Users.{to_hex}

abbrev pub is_written : {A : Type 0} → Context A → Bool
is_written c = elim c.response [ none ↦ false | some _ ↦ true ]

-- `trace_%d_%s`, or `trace_%d` where there were no random bytes.
unfoldable pub new_trace_id : ℤ → Option Text → Text
new_trace_id now none = codes "trace_" ++ print_int now
new_trace_id now (some b) = codes "trace_" ++ (print_int now ++ (codes "_" ++ to_hex b))

module _ {A : Type 0} where
  unfoldable pub trace_id_of : Context A → Text
  trace_id_of c = elim c.trace_id [ none ↦ [] | some id ↦ id ]

  -- gin answers 200 where no handler wrote a status.
  abbrev pub status_of : Context A → ℕ
  status_of c = elim c.response [ none ↦ 200 | some r ↦ r.status ]

module _ {A S : Type 0} where
  -- `expired` is whether the context's deadline has passed when the chain returns.
  unfoldable pub request_timeout : ℤ → Bool → Handler A S
  request_timeout timeout expired next (c, s) =
      if leb_ℤ timeout (pos 0)
      then next (c, s)
      else (let (c', s') = next (c, s) in
          if expired && not (is_written c')
          then (refuse 504 (codes "request timeout") c', s')
          else (c', s'))

  -- A request without an identifier gets a new one; `now` and `random` are read for it.
  unfoldable pub trace_id : ℤ → Option Text → Handler A S
  unfolding new_trace_id
  trace_id now random next (c, s) =
      let id = if text_eq c.trace_header [] then new_trace_id now random else c.trace_header in
      next (record c { trace_id = some id; trace_reply = some id }, s)

module _ (R : Floats) {A S : Type 0} where
  -- `observe` puts the change into the store that the state has.
  unfoldable pub metrics : (observe : (Store R → Store R) → S → S) (elapsed : ℤ) → Handler A S
  metrics observe elapsed next (c, s) =
      let (c', s') = next (c, s) in
      let path = if text_eq c'.full_path [] then c'.url_path else c'.full_path in
      (c', observe (observe_http_request R c'.method path (pos (status_of c')) elapsed) s')
