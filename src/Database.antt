-- ===== src/Database.antt =====
-- What `Open` of internal/database/database.go does to the rows after the migration of the tables.
pub mod Keys
pub mod Ready
use go_order_lab.Prelude.{
  ℕ, Bool, true, false, ◌&&◌, Option, none, some, List, [], ◌∷◌, Action, execute, query, pure,
  ◌>>=◌, ◌>>◌, ltb, Text,
}
use go_order_lab.Store.Rows.{has_id}
use go_order_lab.Model.{
  Order, order_columns, Activity, ActivityStatus, published, unset, User, UserRole, user,
  new_activity_order_key,
}
use go_order_lab.Env.{Env, World, for_each, put_orders, put_activities, put_users}

-- `activity_order_key = '' OR activity_order_key IS NULL`
abbrev pub is_empty_key : Option Text → Bool
is_empty_key none = true
is_empty_key (some []) = true
is_empty_key (some (c ∷ s)) = false

abbrev pub lacks_key : Order → Bool
lacks_key o = ltb 0 o.activity_id && is_empty_key o.activity_order_key

abbrev pub with_key : Text → Order → Order
with_key key o = record o { activity_order_key = some key }

-- `status = '' OR status IS NULL`
abbrev pub is_unset : ActivityStatus → Bool
is_unset unset = true
is_unset _ = false

abbrev pub lacks_status : Activity → Bool
lacks_status a = is_unset a.status

-- `role = '' OR role IS NULL`
abbrev pub is_unset_role : UserRole → Bool
is_unset_role (UserRole.other []) = true
is_unset_role _ = false

abbrev pub lacks_role : User → Bool
lacks_role u = is_unset_role u.role

abbrev pub published_now : Activity → Activity
published_now a = record a { status = published }

abbrev pub user_now : User → User
user_now u = record u { role = user }

module _ (E : Env) where
  abbrev pub set_key : ℕ → Text → Action (World E) ℕ
  set_key id key =
      execute (λ w. E.orders.update (has_id order_columns id) (with_key key) w.db.orders)
        (put_orders E)

  abbrev pub give : ℕ → Option Text → Action (World E) (Unit {0})
  give id none = pure tt
  give id (some key) = set_key id key >> pure tt

  -- The body of the loop over the orders.
  abbrev pub give_key : Order → Action (World E) (Unit {0})
  give_key o = give o.id (new_activity_order_key o.user_id o.activity_id)

  unfoldable pub backfill_activity_order_keys : Action (World E) (Unit {0})
  unfolding new_activity_order_key
  backfill_activity_order_keys = do
    orders ← query (λ w. E.orders.find lacks_key w.db.orders)
    for_each give_key orders

  unfoldable pub fill_statuses : Action (World E) ℕ
  fill_statuses =
      execute (λ w. E.activities.update lacks_status published_now w.db.activities)
        (put_activities E)

  unfoldable pub fill_roles : Action (World E) ℕ
  fill_roles = execute (λ w. E.users.update lacks_role user_now w.db.users) (put_users E)

  -- The three of them, in their order; an error ends the start.
  unfoldable pub fill_rows : Action (World E) (Unit {0})
  unfolding backfill_activity_order_keys fill_statuses fill_roles
  fill_rows = backfill_activity_order_keys >> fill_statuses >> fill_roles >> pure tt
