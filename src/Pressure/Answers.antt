-- ===== src/Pressure/Answers.antt =====
-- What the loops of `verify` in cmd/pressure/main.go find: the wait, the orders and the activities.
use go_order_lab.Prelude.{
  ℕ, zero, suc, ◌≡◌, ◌≢◌, refl, sym, ap, ◌∙◌, true, false, some, inl, inr, Bool-cases, List, [],
  ◌∷◌, ok, ℤ, pos, eq_ℤ, eq_ℤ-eq, eq_ℤ-refl, codes, text_eq, text_eq-eq, get_elem?, arith,
  Result-cases,
}
use go_order_lab.Pressure.Verify.{
  ListedOrder, OrderList, ListedActivity, Outcome, got, Poll, settle, mysql_stock, seen, scan,
}

-- All wait to be paid, and no two are of one user or of a user of the list.
pub OneEach : List ListedOrder → List ℤ → Type 0
OneEach [] users = Unit
OneEach (o ∷ os) users =
    (o.status ≡ codes "WAIT_PAY") × (seen o.user_id users ≡ false) × OneEach os (o.user_id ∷ users)

scan_twice : (os : List ListedOrder) (users : List ℤ) → scan os users true ≢ got false
unfolding scan
scan_twice [] users h = cc
scan_twice (o ∷ os) users h = elim (Bool-cases (text_eq o.status (codes "WAIT_PAY"))) [
  | inl waits ↦ scan_twice os (o.user_id ∷ users) (rw waits at h)
  | inr other ↦ absurd (ground arith)
]

pub scan-OneEach :
    (os : List ListedOrder) (users : List ℤ) → scan os users false ≡ got false → OneEach os users
unfolding scan OneEach
scan-OneEach [] users h = tt
scan-OneEach (o ∷ os) users h = elim (Bool-cases (text_eq o.status (codes "WAIT_PAY"))) [
  | inr other ↦ absurd (ground arith)
  | inl waits ↦ elim (Bool-cases (seen o.user_id users)) [
    | inl twice ↦ absurd (scan_twice os (o.user_id ∷ users) (rw (waits, twice) at h))
    | inr new ↦ (
      text_eq-eq o.status (codes "WAIT_PAY") waits,
      new,
      scan-OneEach os (o.user_id ∷ users) (rw (waits, new) at h),
    )
  ]
]

pub waits_at :
    (os : List ListedOrder) (users : List ℤ) (i : ℕ) (o : ListedOrder)
    → OneEach os users
    → get_elem? os i ≡ some o
    → o.status ≡ codes "WAIT_PAY"
unfolding OneEach
waits_at [] users i o h e = cc
waits_at (x ∷ os) users zero o h e = let same : x ≡ o = cc in ap (λ y. y.status) (sym same) ∙ h.0
waits_at (x ∷ os) users (suc i) o h e = waits_at os (x.user_id ∷ users) i o h.2 e

new_at :
    (os : List ListedOrder) (users : List ℤ) (i : ℕ) (o : ListedOrder)
    → OneEach os users
    → get_elem? os i ≡ some o
    → seen o.user_id users ≡ false
unfolding OneEach
new_at [] users i o h e = cc
new_at (x ∷ os) users zero o h e =
    let same : x ≡ o = cc in ap (λ y. seen y.user_id users) (sym same) ∙ h.1
new_at (x ∷ os) users (suc i) o h e =
    let rest = new_at os (x.user_id ∷ users) i o h.2 e in ground arith

pub one_place :
    (os : List ListedOrder) (users : List ℤ) (i j : ℕ) (a b : ListedOrder)
    → OneEach os users
    → get_elem? os i ≡ some a
    → get_elem? os j ≡ some b
    → a.user_id ≡ b.user_id
    → i ≡ j
unfolding OneEach
one_place [] users i j a b h e k same = cc
one_place (x ∷ os) users zero zero a b h e k same = refl
one_place (x ∷ os) users zero (suc j) a b h e k same =
    let own : x ≡ a = cc in
    let new = new_at os (x.user_id ∷ users) j b h.2 k in
    let twice : eq_ℤ x.user_id b.user_id ≡ true =
      ap (eq_ℤ x.user_id) (sym (ap (λ y. y.user_id) own ∙ same)) ∙ eq_ℤ-refl x.user_id in
    absurd (ground arith)
one_place (x ∷ os) users (suc i) zero a b h e k same =
    let own : x ≡ b = cc in
    let new = new_at os (x.user_id ∷ users) i a h.2 e in
    let twice : eq_ℤ x.user_id a.user_id ≡ true =
      ap (eq_ℤ x.user_id) (same ∙ sym (ap (λ y. y.user_id) own)) ∙ eq_ℤ-refl x.user_id in
    absurd (ground arith)
one_place (x ∷ os) users (suc i) (suc j) a b h e k same =
    ap suc (one_place os (x.user_id ∷ users) i j a b h.2 e k same)

-- A round whose orders are those that are judged, and which finds none queued.
pub record Settled (polls : List Poll) (orders : OrderList) : Type 0 where
  pub round : ℕ
  pub poll : Poll
  pub queued : OrderList
  pub at_round : get_elem? polls round ≡ some poll
  pub listed : poll.orders ≡ ok orders
  pub asked : poll.queued ≡ ok queued
  pub none_queued : queued.total ≡ pos 0

pub settle-Settled :
    (polls : List Poll) (orders : OrderList) → settle polls ≡ got orders → Settled polls orders
unfolding settle
settle-Settled [] orders h = absurd (ground arith)
settle-Settled (p ∷ ps) orders h = elim (Result-cases p.orders) [
  | inr (e, lost) ↦ absurd (ground arith)
  | inl (listed, e) ↦ elim (Result-cases p.queued) [
    | inr (x, lost) ↦ absurd (ground arith)
    | inl (queued, q) ↦ elim (Bool-cases (eq_ℤ queued.total (pos 0))) [
      | inl done ↦
          (let same : ◌≡◌ {A = Outcome OrderList} (got listed) (got orders) = ground arith in
            let own : listed ≡ orders = ground arith in
            record {
              round = 0;
              poll = p;
              queued = queued;
              at_round = refl;
              listed = e ∙ ap ok own;
              asked = q;
              none_queued = eq_ℤ-eq queued.total (pos 0) done;
            })
      | inr some_queued ↦ elim (Bool-cases p.late) [
        | inl late ↦ absurd (ground arith)
        | inr early ↦
            (let later = settle-Settled ps orders (ground arith) in
              record {
                round = suc later.round;
                poll = later.poll;
                queued = later.queued;
                at_round = later.at_round;
                listed = later.listed;
                asked = later.asked;
                none_queued = later.none_queued;
              })
      ]
    ]
  ]
]

pub record Listed (id stock : ℤ) (activities : List ListedActivity) : Type 0 where
  pub place : ℕ
  pub activity : ListedActivity
  pub there : get_elem? activities place ≡ some activity
  pub own_id : activity.id ≡ id
  pub own_stock : activity.stock ≡ stock

pub mysql_stock-Listed :
    (id : ℤ) (n : ℕ) (activities : List ListedActivity)
    → mysql_stock id activities ≡ pos n
    → Listed id (pos n) activities
unfolding mysql_stock
mysql_stock-Listed id n [] h = cc
mysql_stock-Listed id n (a ∷ rest) h = elim (Bool-cases (eq_ℤ a.id id)) [
  | inl own ↦ record {
    place = 0;
    activity = a;
    there = refl;
    own_id = eq_ℤ-eq a.id id own;
    own_stock = rw own at h;
  }
  | inr other ↦
      (let later = mysql_stock-Listed id n rest (rw other at h) in
        record {
          place = suc later.place;
          activity = later.activity;
          there = later.there;
          own_id = later.own_id;
          own_stock = later.own_stock;
        })
]
