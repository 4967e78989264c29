-- ===== src/Pressure/Load.antt =====
-- `runLoad` of cmd/pressure/main.go, as the steps of its workers: what is done under the lock is one
-- step. A call's answer is a function of its index.
use go_order_lab.Prelude.{
  ℕ, zero, suc, ◌≡◌, Bool, true, false, not, ◌&&◌, ◌||◌, List, [], ◌∷◌, ◌++◌, ℤ, pos, ltb_ℤ, leb_ℤ,
  Text, leb,
}

pub record Sample : Type 0 where
  pub status : ℕ
  pub message : Text
  pub latency : ℤ
  pub failed : Bool

-- A worker before the lock, in a call, or returned.
pub data Phase : Type 0 where
  asking : Phase
  calling : (index : ℕ) → Phase
  returned : Phase

pub record Load : Type 0 where
  pub next : ℕ
  pub results : List Sample
  pub workers : List Phase

pub record Plan : Type 0 where
  pub count : ℕ
  pub duration : ℤ
  pub deadline : ℤ
  pub call : ℕ → Sample

-- The test under the lock: the time is over or, without a duration, all calls are given out.
unfoldable pub is_over : Plan → ℤ → ℕ → Bool
is_over P now next =
    (ltb_ℤ (pos 0) P.duration && leb_ℤ P.deadline now)
    || (not (ltb_ℤ (pos 0) P.duration) && not (ltb_ℤ P.duration (pos 0)) && leb P.count next)

pub data Step (P : Plan) (s : Load) : Load → Type 0 where
  take :
      (l r : List Phase) (now : ℤ)
      → s.workers ≡ l ++ asking ∷ r
      → is_over P now s.next ≡ false
      → Step P s (record s { next = suc s.next; workers = l ++ calling s.next ∷ r })
  finish :
      (l r : List Phase) (i : ℕ)
      → s.workers ≡ l ++ calling i ∷ r
      → Step P s (record s { results = s.results ++ P.call i ∷ []; workers = l ++ asking ∷ r })
  leave :
      (l r : List Phase) (now : ℤ)
      → s.workers ≡ l ++ asking ∷ r
      → is_over P now s.next ≡ true
      → Step P s (record s { workers = l ++ returned ∷ r })

abbrev pub replicate {ℓ} : {A : Type ℓ} → ℕ → A → List A
replicate zero a = []
replicate (suc n) a = a ∷ replicate n a

abbrev pub started : ℕ → Load
started workers = record { next = 0; results = []; workers = replicate workers asking }

-- A run of so many steps.
pub data Run (P : Plan) (s : Load) : ℕ → Load → Type 0 where
  here : (n : ℕ) → n ≡ 0 → Run P s n s
  then_step : {n : ℕ} {t u : Load} (m : ℕ) → m ≡ suc n → Run P s n t → Step P t u → Run P s m u

-- `wg.Wait()` returns.
abbrev pub all_returned : List Phase → Bool
all_returned [] = true
all_returned (returned ∷ r) = all_returned r
all_returned (asking ∷ r) = false
all_returned (calling i ∷ r) = false
