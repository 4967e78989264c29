-- ===== src/Tests/Queue.antt =====
-- A broker in memory; a message is printed as a sign, the retry's magnitude and the order number.
use go_order_lab.Prelude.{
  zero, suc, ◌≡◌, refl, Option, none, some, List, [], ◌∷◌, ◌++◌, Result, ok, err, Error, ℤ, pos,
  negsuc, Text, text_eq, if◌then◌else◌, arith, Option-cases, inl, inr,
}
use go_order_lab.Env.Broker.{Broker, RabbitOrderMessage}

pub record Queues : Type 0 where
  pub sent : Text → List Text
  pub fate : Option Error

abbrev pub join : Text → Text → Queues → Queues
join queue body s = record s {
  sent = λ q. if text_eq queue q then s.sent q ++ body ∷ [] else s.sent q;
}

abbrev pub send : Text → Text → Queues → Result (Unit {0}) × Queues
send queue body s = elim s.fate [ none ↦ (ok tt, join queue body s) | some e ↦ (err e, s) ]

pub send_ok :
    (queue body : Text) (s s' : Queues)
    → send queue body s ≡ (ok tt, s')
    → (q : Text) → s'.sent q ≡ (if text_eq queue q then s.sent q ++ body ∷ [] else s.sent q)
send_ok queue body s s' h q = elim (Option-cases s.fate) [
  | inl e ↦ (let state : s' ≡ join queue body s = ground arith in rw state refl)
  | inr (_, e) ↦ absurd (ground arith)
]

abbrev pub print_order : RabbitOrderMessage → Text
print_order m = elim m.retry [ pos n ↦ 0 ∷ n ∷ m.order_no | negsuc n ↦ 1 ∷ n ∷ m.order_no ]

abbrev pub read_order : Text → Option RabbitOrderMessage
read_order (zero ∷ n ∷ t) = some (record { order_no = t; retry = pos n })
read_order (suc zero ∷ n ∷ t) = some (record { order_no = t; retry = negsuc n })
read_order _ = none

pub read-print : (m : RabbitOrderMessage) → read_order (print_order m) ≡ some m
read-print m = by_sign m.retry m.order_no
  where
    by_sign :
        (n : ℤ) (t : Text)
        → read_order (print_order (record { order_no = t; retry = n }))
          ≡ some (record { order_no = t; retry = n })
    by_sign (pos n) t = refl
    by_sign (negsuc n) t = refl

abbrev pub queues : Broker
queues = record {
  State = Queues;
  written = λ s q. s.sent q;
  publish = send;
  publish_ok = send_ok;
  marshal_order = print_order;
  unmarshal_order = read_order;
  marshal_dead_letter = λ m. m.order_no ++ m.reason;
  unmarshal-marshal = read-print;
}

abbrev pub empty_queues : Queues
empty_queues = record { sent = λ q. []; fate = none }
