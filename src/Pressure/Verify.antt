-- ===== src/Pressure/Verify.antt =====
-- `verify` of cmd/pressure/main.go, on the answers that it reads. Each is a value or the error of its
-- request.
use go_order_lab.Prelude.{
  Bool, false, not, ◌&&◌, ◌||◌, List, [], ◌∷◌, Result, ok, err, Error, ℤ, pos, negsuc, eq_ℤ, ◌-ℤ◌,
  wrap64, Text, codes, text_eq, length, if◌then◌else◌,
}

pub record ListedOrder : Type 0 where
  pub order_no : Text
  pub user_id : ℤ
  pub status : Text

pub record OrderList : Type 0 where
  pub total : ℤ
  pub items : List ListedOrder

-- `items` is the number of the rows of the reconciliation.
pub record StockReport : Type 0 where
  pub checked : ℤ
  pub missing : ℤ
  pub mismatched : ℤ
  pub items : ℤ

pub record ListedActivity : Type 0 where
  pub id : ℤ
  pub stock : ℤ

-- The errors of `verify`.
pub data Failure : Type 0 where
  api_error : (error : Error) → Failure
  still_queued : Failure
  unexpected_state : (status : Text) → Failure
  verification_failed : Failure
  no_order : Failure

pub data Outcome (A : Type 0) : Type 0 where
  got : A → Outcome A
  failed : Failure → Outcome A

infixl 5 ◌>>=◌
abbrev pub ◌>>=◌ : {A B : Type 0} → Outcome A → (A → Outcome B) → Outcome B
got a >>= f = f a
failed e >>= f = failed e

abbrev pub read : {A : Type 0} → Result A → Outcome A
read (ok a) = got a
read (err e) = failed (api_error e)

-- A round of the wait: the orders, then those that are queued, and whether the time is over.
pub record Poll : Type 0 where
  pub orders : Result OrderList
  pub queued : Result OrderList
  pub late : Bool

-- The orders of the first round that finds none queued. The rounds end when the time is over.
unfoldable pub settle : List Poll → Outcome OrderList
settle [] = failed still_queued
settle (p ∷ ps) =
    let later = settle ps in
    read p.orders >>= λ orders. read p.queued >>= λ queued.
    if eq_ℤ queued.total (pos 0) then got orders else if p.late then failed still_queued else later

unfoldable pub mysql_stock : ℤ → List ListedActivity → ℤ
mysql_stock id [] = negsuc 0
mysql_stock id (a ∷ rest) = if eq_ℤ a.id id then a.stock else mysql_stock id rest

abbrev pub seen : ℤ → List ℤ → Bool
seen u [] = false
seen u (v ∷ vs) = eq_ℤ v u || seen u vs

-- Whether a user stands twice among the orders.
unfoldable pub scan : List ListedOrder → List ℤ → Bool → Outcome Bool
scan [] users duplicate = got duplicate
scan (o ∷ os) users duplicate =
    let rest = scan os (o.user_id ∷ users) (duplicate || seen o.user_id users) in
    if text_eq o.status (codes "WAIT_PAY") then rest else failed (unexpected_state o.status)

unfoldable pub redis_matches : StockReport → Bool
redis_matches stock =
    eq_ℤ stock.checked (pos 1)
    && eq_ℤ stock.missing (pos 0)
    && eq_ℤ stock.mismatched (pos 0)
    && eq_ℤ stock.items (pos 0)

unfoldable pub is_valid : ℤ → ℤ → ℤ → OrderList → StockReport → List ListedActivity → Bool → Bool
unfolding redis_matches mysql_stock
is_valid id initial accepted orders stock activities duplicate =
    eq_ℤ orders.total accepted
    && eq_ℤ (mysql_stock id activities) (wrap64 (initial -ℤ accepted))
    && redis_matches stock
    && not duplicate
    && eq_ℤ orders.total (pos (length orders.items))

abbrev pub first_order : List ListedOrder → Outcome Text
first_order [] = failed no_order
first_order (o ∷ os) = got o.order_no

-- What follows the last request.
unfoldable pub conclude : ℤ → ℤ → ℤ → OrderList → StockReport → List ListedActivity → Outcome Text
unfolding scan is_valid
conclude id initial accepted orders stock activities = scan orders.items [] false >>= λ duplicate.
    if is_valid id initial accepted orders stock activities duplicate
    then first_order orders.items
    else failed verification_failed

-- The number of an order of the activity, where all is as it should be.
unfoldable pub verify :
    ℤ → ℤ → ℤ → List Poll → Result StockReport → Result (List ListedActivity) → Outcome Text
unfolding settle conclude
verify id initial accepted polls stock activities = settle polls >>= λ orders.
    read stock >>= λ report.
    read activities >>= λ listed. conclude id initial accepted orders report listed
