-- ===== src/Tests/Queues.antt =====
-- The theorems on the Redis stock, the messages and the keys at concrete inputs.
use go_order_lab.Prelude.{
  ◌≡◌, refl, true, false, some, ◌∷◌, ok, pos, ◌+ℤ◌, ◌≤ℤ◌, ◌-ℤ◌, Text, codes, text_eq, decimal,
  if◌then◌else◌, ltb_ℤ,
}
use go_order_lab.Model.{new_activity_order_key}
use go_order_lab.Env.Broker.{RabbitOrderMessage}
use go_order_lab.Rabbit.Message.{
  encode_rabbit_order_message, decode_rabbit_order_message, decode-encode,
}
use go_order_lab.Redis.Commands.{as_number, number}
use go_order_lab.Redis.Keys.{stock_key, users_key}
use go_order_lab.Redis.Stock.{reserve, release, interpret}
use go_order_lab.Redis.Reserve.{entry, reserve_lem}
use go_order_lab.Redis.Release.{add_one, release_lem}
use go_order_lab.Tests.Server.{Server, server, empty_server}
use go_order_lab.Tests.Queue.{queues}
use go_order_lab.Tests.Shop.{sale}

-- The server behind a reservation of the sale for user 7, and behind its release.
abbrev held : Server
held = (reserve server (pos 20) sale 7 empty_server).1

abbrev given_back : Server
given_back = (release server 1 7 held).1

reserves : reserve server (pos 20) sale 7 empty_server ≡ (ok (pos 1), held)
unfolding reserve text_eq stock_key decimal interpret ◌-ℤ◌
reserves = refl

releases : release server 1 7 held ≡ (ok tt, given_back)
unfolding release reserve text_eq stock_key decimal users_key
releases = refl

reserve_lem_example :
    (server.is_member (users_key 1) (decimal 7) empty_server ≡ false)
    × (as_number (entry server (server.get (stock_key 1) empty_server) (pos 2))
        ≡ some (pos 1 +ℤ pos 1))
    × (pos 0 ≤ℤ pos 1)
    × (server.get (stock_key 1) held ≡ some (number (pos 1)))
    × ((m : Text)
        → server.is_member (users_key 1) m held
          ≡ (if text_eq (decimal 7) m then true else server.is_member (users_key 1) m empty_server))
reserve_lem_example = reserve_lem server (pos 20) sale 7 empty_server (pos 1) held reserves

release_lem_example :
    ((m : Text)
      → server.is_member (users_key 1) m given_back
        ≡ (if text_eq (decimal 7) m then false else server.is_member (users_key 1) m held))
    × (server.get (stock_key 1) given_back ≡ (
        if server.is_member (users_key 1) (decimal 7) held
        then add_one (server.get (stock_key 1) held)
        else server.get (stock_key 1) held))
release_lem_example = release_lem server 1 7 held given_back releases

-- A message on its third try, of a limit of three.
abbrev third : RabbitOrderMessage
third = record { order_no = codes "AO9"; retry = pos 3 }

encodes : encode_rabbit_order_message queues third ≡ ok (0 ∷ 3 ∷ codes "AO9")
unfolding encode_rabbit_order_message text_eq
encodes = refl

decode-encode_example :
    decode_rabbit_order_message queues (0 ∷ 3 ∷ codes "AO9")
    ≡ ok (record third { retry = if ltb_ℤ third.retry (pos 0) then pos 0 else third.retry })
decode-encode_example = decode-encode queues third (0 ∷ 3 ∷ codes "AO9") encodes

key_7_1 : new_activity_order_key 7 1 ≡ some (codes "7:1")
unfolding new_activity_order_key decimal
key_7_1 = refl
