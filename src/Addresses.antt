-- ===== src/Addresses.antt =====
-- `AddressService` of internal/service/address.go.
pub mod Rows
pub mod Default
pub mod Created
use go_order_lab.Prelude.{
  ℕ, Bool, true, false, not, ◌&&◌, List, ◌++◌, reverse, Result, ok, err, failure, Action, query_or,
  pure, ◌>>=◌, ◌>>◌, codes, ◌==◌, if◌then◌else◌, execute, Text,
}
use go_order_lab.Store.Rows.{select, stamp}
use go_order_lab.Model.{Address, address_columns, no_base}
use go_order_lab.Env.{Env, World, transaction, save_address, create_address, put_addresses}
use go_order_lab.Orders.Checkout.{owns_address}

pub record CreateAddressInput : Type 0 where
  pub receiver : Text
  pub phone : Text
  pub province : Text
  pub city : Text
  pub detail : Text
  pub is_default : Bool

abbrev pub address_of : ℕ → Address → Bool
address_of user_id a = a.user_id == user_id

abbrev pub new_address : ℕ → CreateAddressInput → Address
new_address user_id input = record {
  base = no_base;
  user_id = user_id;
  receiver = input.receiver;
  phone = input.phone;
  province = input.province;
  city = input.city;
  detail = input.detail;
  is_default = input.is_default;
}

abbrev pub no_default : Address → Address
no_default a = record a { is_default = false }

-- Default addresses first, and the newer of two before the older.
abbrev pub default_first : List Address → List Address
default_first xs =
    select (λ a. a.is_default) (reverse xs) ++ select (λ a. not a.is_default) (reverse xs)

module _ (E : Env) where
  unfoldable pub clear_default : ℕ → Action (World E) ℕ
  clear_default user_id =
      execute (λ w. E.addresses.update (address_of user_id) no_default w.db.addresses)
        (put_addresses E)

  -- `Save` writes the time of the change into the address that it is given.
  unfoldable pub save_default : Address → Action (World E) Address
  save_default a w =
      let a' = record a { is_default = true } in
      (save_address E a' >> pure (stamp address_columns (E.addresses.clock w.db.addresses) a')) w

  unfoldable pub create_tx : ℕ → CreateAddressInput → Action (World E) Address
  create_tx user_id input w =
      if input.is_default
      then (clear_default user_id >> create_address E (new_address user_id input)) w
      else create_address E (new_address user_id input) w

  unfoldable pub create : ℕ → CreateAddressInput → Action (World E) Address
  create user_id input = transaction E (create_tx user_id input)

  unfoldable pub list : ℕ → World E → Result (List Address)
  list user_id w = elim (E.addresses.find (address_of user_id) w.db.addresses) [
    | err e ↦ err e
    | ok xs ↦ ok (default_first xs)
  ]

  unfoldable pub set_default_tx : ℕ → ℕ → Action (World E) Address
  set_default_tx user_id address_id = do
    a ←
        query_or (failure (codes "address not found"))
          (λ w. E.addresses.first (owns_address address_id user_id) w.db.addresses)
    clear_default user_id
    save_default a

  unfoldable pub set_default : ℕ → ℕ → Action (World E) Address
  set_default user_id address_id = transaction E (set_default_tx user_id address_id)
