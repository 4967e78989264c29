-- ===== src/Redis/Cache.antt =====
-- `RedisStockStore` of internal/service/redis_stock.go meets the interface that the services use.
use go_order_lab.Prelude.{
  ℕ, ◌≡◌, refl, sym, ap, ◌∙◌, Bool, true, false, Option, none, some, ok, ℤ, pos, ◌+ℤ◌,
  if◌then◌else◌, arith, Option-cases, inl, inr, decimal, ◌==◌,
}
use go_order_lab.Model.{Activity}
use go_order_lab.Env.Cache.{StockCache}
use go_order_lab.Redis.Commands.{Redis, Value, number, unreadable}
use go_order_lab.Redis.Keys.{stock_key, users_key, stock_key-same, decimal-same}
use go_order_lab.Redis.Stock.{
  reserve_ttl, reserve_ttl_pos, reserve, release, set_stock, get_stock, prewarm, read_stock,
}
use go_order_lab.Redis.Reserve.{reserve_lem, call_ok}
use go_order_lab.Redis.Release.{release_lem, add_one}

-- The stock that an entry holds, if it can be read.
abbrev pub readable : Option Value → Option ℤ
readable none = none
readable (some (number v)) = some v
readable (some (unreadable t)) = none

==_comm : (a b : ℕ) → (a == b) ≡ (b == a)
==_comm a b = ground arith

module _ (R : Redis) where
  abbrev pub stock : R.State → ℕ → Option ℤ
  stock s a = readable (R.get (stock_key a) s)

  abbrev pub holds : R.State → ℕ → ℕ → Bool
  holds s a u = R.is_member (users_key a) (decimal u) s

  read_stock_ok :
      (o : Option Value) (v : ℤ) (exists : Bool)
      → read_stock R o ≡ ok (v, exists)
      → readable o ≡ (if exists then some v else none)
  read_stock_ok none v exists h = ground arith
  read_stock_ok (some (number n)) v exists h = ground arith
  read_stock_ok (some (unreadable t)) v exists h = absurd (ground arith)

  pub get_stock_ok :
      (a : ℕ) (s : R.State) (v : ℤ) (exists : Bool)
      → get_stock R a s ≡ ok (v, exists)
      → stock s a ≡ (if exists then some v else none)
  unfolding get_stock
  get_stock_ok a s v exists h = elim (Option-cases (R.send s)) [
    | inl e ↦ elim (Option-cases (R.receive s)) [
      | inl r ↦ read_stock_ok (R.get (stock_key a) s) v exists (rw (get_stock, e, r) at h)
      | inr (_, r) ↦ absurd (ground arith)
    ]
    | inr (_, e) ↦ absurd (ground arith)
  ]

  -- The entry that was set is found, and no other is touched.
  pub set_stock_ok :
      (now : ℤ) (a : ℕ) (v end_at : ℤ) (s s' : R.State)
      → set_stock R now a v end_at s ≡ (ok tt, s')
      → (b : ℕ) → stock s' b ≡ (if a == b then some v else stock s b)
  unfolding set_stock
  set_stock_ok now a v end_at s s' h b =
      let ttl = reserve_ttl now end_at in
      let live = reserve_ttl_pos now end_at in
      let s1 = R.set (stock_key a) v ttl s in
      let last =
        ap (λ p. p.1)
          (call_ok R (λ s. (ok tt, R.expire (users_key a) ttl (R.set (stock_key a) v ttl s))) s tt
            s' h) in
      rw (sym last) (
        ap readable (
          R.get-expire (users_key a) ttl s1 (stock_key b) live
          ∙ R.get-set (stock_key a) v ttl s (stock_key b) live
          ∙ ap (λ t. if t then some (number v) else R.get (stock_key b) s) (stock_key-same a b))
        ∙ given (a == b))
    where
      given :
          (t : Bool)
          → readable (if t then some (number v) else R.get (stock_key b) s)
            ≡ (if t then some v else stock s b)
      given true = refl
      given false = refl

  readable-add_one :
      (v : Option Value)
      → readable (add_one v)
        ≡ (elim (readable v) [ none ↦ some (pos 1) | some n ↦ some (n +ℤ pos 1) ])
  readable-add_one none = refl
  readable-add_one (some (number v)) = refl
  readable-add_one (some (unreadable t)) = refl

  pub reserve_ok :
      (now : ℤ) (act : Activity) (u : ℕ) (s : R.State) (left : ℤ) (s' : R.State)
      → reserve R now act u s ≡ (ok left, s')
      → (holds s act.id u ≡ false)
        × (stock s' act.id ≡ some left)
        × ((v : ℕ) → holds s' act.id v ≡ (if v == u then true else holds s act.id v))
  reserve_ok now act u s left s' h =
      let (free, _, _, entry, members) = reserve_lem R now act u s left s' h in
      (
        free,
        ap readable entry,
        λ v.
            members (decimal v)
            ∙ ap (λ b. if b then true else holds s act.id v) (decimal-same u v ∙ ==_comm u v),
      )

  pub release_ok :
      (a u : ℕ) (s s' : R.State)
      → release R a u s ≡ (ok tt, s')
      → ((v : ℕ) → holds s' a v ≡ (if v == u then false else holds s a v))
        × (stock s' a ≡ (
            if holds s a u
            then (elim (stock s a) [ none ↦ some (pos 1) | some v ↦ some (v +ℤ pos 1) ])
            else stock s a))
  release_ok a u s s' h =
      let (members, entry) = release_lem R a u s s' h in
      (
        λ v.
            members (decimal v)
            ∙ ap (λ b. if b then false else holds s a v) (decimal-same u v ∙ ==_comm u v),
        ap readable entry ∙ given (holds s a u),
      )
    where
      given :
          (b : Bool)
          → readable (if b then add_one (R.get (stock_key a) s) else R.get (stock_key a) s) ≡ (
              if b
              then (elim (stock s a) [ none ↦ some (pos 1) | some v ↦ some (v +ℤ pos 1) ])
              else stock s a)
      given true = readable-add_one (R.get (stock_key a) s)
      given false = refl

  pub prewarm_ok :
      (now : ℤ) (act : Activity) (s s' : R.State)
      → prewarm R now act s ≡ (ok tt, s')
      → (b : ℕ) → stock s' b ≡ (if act.id == b then some act.stock else stock s b)
  unfolding prewarm
  prewarm_ok now act = set_stock_ok now act.id act.stock act.end_at

  abbrev pub redis_cache : StockCache
  redis_cache = record {
    State = R.State;
    stock = stock;
    holds = holds;
    reserve = reserve R;
    release = release R;
    prewarm = prewarm R;
    set_stock = set_stock R;
    get_stock = get_stock R;
    get_stock_ok = get_stock_ok;
    set_stock_ok = set_stock_ok;
    reserve_ok = reserve_ok;
    release_ok = release_ok;
    prewarm_ok = prewarm_ok;
  }
