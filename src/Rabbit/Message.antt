-- ===== src/Rabbit/Message.antt =====
-- `encodeRabbitOrderMessage` and `decodeRabbitOrderMessage` of internal/service/rabbitmq.go.
use go_order_lab.Prelude.{
  ℕ, Bool, ◌&&◌, ◌||◌, none, some, [], ◌∷◌, reverse, Result, ok, err, failure, pos, ltb_ℤ, Text,
  codes, text_eq, ◌==◌, leb, if◌then◌else◌, ◌≡◌, refl, arith, subst, Bool-cases, inl, inr,
}
use go_order_lab.Env.Broker.{Broker, RabbitOrderMessage}

-- `unicode.IsSpace`
is_space : ℕ → Bool
is_space c =
    (leb 9 c && leb c 13)
    || c == 32
    || c == 0x85
    || c == 0xa0
    || c == 0x1680
    || (leb 0x2000 c && leb c 0x200a)
    || c == 0x2028
    || c == 0x2029
    || c == 0x202f
    || c == 0x205f
    || c == 0x3000

trim_left : Text → Text
trim_left [] = []
trim_left (c ∷ s) = if is_space c then trim_left s else c ∷ s

-- `strings.TrimSpace`
trim_space : Text → Text
trim_space s = reverse (trim_left (reverse (trim_left s)))

module _ (B : Broker) where
  unfoldable pub encode_rabbit_order_message : RabbitOrderMessage → Result Text
  encode_rabbit_order_message msg =
      if text_eq msg.order_no []
      then err (failure (codes "rabbit order message requires order_no"))
      else ok (B.marshal_order msg)

  plain_order_no : Text → Result RabbitOrderMessage
  plain_order_no order_no =
      if text_eq order_no []
      then err (failure (codes "empty rabbit order message"))
      else ok (record { order_no = order_no; retry = pos 0 })

  unfoldable pub decode_rabbit_order_message : Text → Result RabbitOrderMessage
  unfolding plain_order_no is_space trim_left trim_space
  decode_rabbit_order_message body = elim (B.unmarshal_order body) [
    | some msg ↦
        if text_eq msg.order_no []
        then plain_order_no (trim_space body)
        else if ltb_ℤ msg.retry (pos 0)
        then ok (record msg { retry = pos 0 })
        else ok msg
    | none ↦ plain_order_no (trim_space body)
  ]

  -- What was encoded is decoded as it was, a negative number of tries as 0.
  pub decode-encode :
      (msg : RabbitOrderMessage) (body : Text)
      → encode_rabbit_order_message msg ≡ ok body
      → decode_rabbit_order_message body
        ≡ ok (record msg { retry = if ltb_ℤ msg.retry (pos 0) then pos 0 else msg.retry })
  unfolding encode_rabbit_order_message decode_rabbit_order_message
  decode-encode msg body h = elim (Bool-cases (text_eq msg.order_no [])) [
    | inl empty ↦ absurd (ground arith)
    | inr named ↦
        (let same : B.marshal_order msg ≡ body = ground arith in
          let read : B.unmarshal_order body ≡ some msg =
            subst (λ b. B.unmarshal_order b ≡ some msg) same (B.unmarshal-marshal msg) in
          rw (decode_rabbit_order_message, read, named)
            (elim (Bool-cases (ltb_ℤ msg.retry (pos 0))) [
              | inl below ↦ rw below refl
              | inr above ↦ rw above refl
            ]))
  ]
