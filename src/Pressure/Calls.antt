-- ===== src/Pressure/Calls.antt =====
-- `runLoad` of cmd/pressure/main.go makes each call once, in whatever order its workers run.
use mathlib.Core.List.Perm
use mathlib.Core.List.{Perm, perm_middle, perm_append_singleton, map-append, append_assoc}
use go_order_lab.Prelude.{
  ℕ, zero, suc, ◌≡◌, refl, sym, ap, subst, ◌∙◌, true, List, [], ◌∷◌, ◌++◌, map,
}
use go_order_lab.Pressure.Load.{
  Sample, Phase, asking, calling, returned, Load, Plan, Step, take, finish, leave, replicate,
  all_returned,
}

abbrev pub upto : ℕ → List ℕ
upto zero = []
upto (suc n) = upto n ++ n ∷ []

-- The indices that are being called.
abbrev pub pending : List Phase → List ℕ
pending [] = []
pending (asking ∷ r) = pending r
pending (calling i ∷ r) = i ∷ pending r
pending (returned ∷ r) = pending r

pending-append : (l r : List Phase) → pending (l ++ r) ≡ pending l ++ pending r
pending-append [] r = refl
pending-append (asking ∷ l) r = pending-append l r
pending-append (calling i ∷ l) r = ap (λ x. i ∷ x) (pending-append l r)
pending-append (returned ∷ l) r = pending-append l r

pub pending_started : (n : ℕ) → pending (replicate n asking) ≡ []
pending_started zero = refl
pending_started (suc n) = pending_started n

pub pending_returned : (l : List Phase) → all_returned l ≡ true → pending l ≡ []
pending_returned [] h = refl
pending_returned (asking ∷ l) h = cc
pending_returned (calling i ∷ l) h = cc
pending_returned (returned ∷ l) h = pending_returned l h

module _ {A : Type 0} (done l r u : List A) (x : A) where
  -- A call that is taken, and one that is answered.
  taken : Perm (done ++ (l ++ r)) u → Perm (done ++ (l ++ x ∷ r)) (u ++ x ∷ [])
  taken h = Perm.trans (Perm.append_left done (perm_middle l r)) (
      Perm.trans (perm_middle done (l ++ r))
        (Perm.trans (Perm.cons x h) (Perm.symm (perm_append_singleton x u))))

  answered : Perm (done ++ (l ++ x ∷ r)) u → Perm ((done ++ x ∷ []) ++ (l ++ r)) u
  answered h =
      subst (λ z. Perm z u) (sym (append_assoc done (x ∷ []) (l ++ r)))
        (Perm.trans (Perm.append_left done (Perm.symm (perm_middle l r))) h)

module _ (P : Plan) where
  calls-append :
      (l r : List Phase)
      → map P.call (pending (l ++ r)) ≡ map P.call (pending l) ++ map P.call (pending r)
  calls-append l r =
      ap (map P.call) (pending-append l r) ∙ map-append P.call (pending l) (pending r)

  -- The answers with those of the calls under way.
  abbrev pub IsAccounted : Load → Type 0
  IsAccounted s = Perm (s.results ++ map P.call (pending s.workers)) (map P.call (upto s.next))

  module _ (s : Load) (l r : List Phase) where
    abbrev before : List Sample
    before = map P.call (pending l)

    abbrev behind : List Sample
    behind = map P.call (pending r)

    regroup :
        (p : Phase)
        → s.workers ≡ l ++ p ∷ r
        → IsAccounted s
        → Perm (s.results ++ (before ++ map P.call (pending (p ∷ r)))) (map P.call (upto s.next))
    regroup p at h =
        subst (λ z. Perm (s.results ++ z) (map P.call (upto s.next)))
          (ap (λ w. map P.call (pending w)) at ∙ calls-append l (p ∷ r)) h

  pub Step-IsAccounted : {s t : Load} → Step P s t → IsAccounted s → IsAccounted t
  Step-IsAccounted {s} (take l r now at more) h =
      rw (calls-append l (calling s.next ∷ r), map-append P.call (upto s.next) (s.next ∷ []))
        (taken s.results (before s l r) (behind s l r) (map P.call (upto s.next)) (P.call s.next)
          (regroup s l r asking at h))
  Step-IsAccounted {s} (finish l r i at) h = rw (calls-append l (asking ∷ r)) (
      answered s.results (before s l r) (behind s l r) (map P.call (upto s.next)) (P.call i)
        (regroup s l r (calling i) at h))
  Step-IsAccounted {s} (leave l r now at over) h =
      rw (calls-append l (returned ∷ r)) (regroup s l r asking at h)
