-- ===== src/Catalog.antt =====
-- `CatalogService` of internal/service/catalog.go. The lists come newest first.
pub mod Activities
pub mod Status
use go_order_lab.Prelude.{
  ℕ, Bool, true, false, not, ◌||◌, List, ◌++◌, reverse, Result, ok, err, failure, Action, query_or,
  pure, raise_if, ◌>>=◌, ◌>>◌, ℤ, pos, ltb_ℤ, leb_ℤ, ◌+ℤ◌, Text, codes, if◌then◌else◌,
}
use go_order_lab.Store.Rows.{has_id, stamp}
use go_order_lab.Model.{
  Product, product_columns, Activity, activity_columns, ActivityStatus, published, offline, ended,
  unset, is_valid_activity_status, no_base,
}
use go_order_lab.Env.{
  Env, World, create_product as insert_product, create_activity as insert_activity, save_activity,
}
use go_order_lab.Orders.Service.{seconds}

pub record CreateProductInput : Type 0 where
  pub name : Text
  pub price : ℤ
  pub stock : ℤ

pub record CreateActivityInput : Type 0 where
  pub product_id : ℕ
  pub name : Text
  pub price : ℤ
  pub stock : ℤ
  pub duration_seconds : ℤ

abbrev pub new_product : CreateProductInput → Product
new_product input = record {
  base = no_base;
  name = input.name;
  price = input.price;
  stock = input.stock;
}

-- A day, where no duration is given.
abbrev pub activity_duration : ℤ → ℤ
activity_duration n = if leb_ℤ n (pos 0) then pos 86_400 else n

abbrev pub new_activity : CreateActivityInput → ℤ → Activity
new_activity input now = record {
  base = no_base;
  product_id = input.product_id;
  name = input.name;
  price = input.price;
  stock = input.stock;
  status = published;
  start_at = now;
  end_at = now +ℤ seconds (activity_duration input.duration_seconds);
}

abbrev pub status_text : ActivityStatus → Text
status_text ActivityStatus.published = codes "PUBLISHED"
status_text ActivityStatus.offline = codes "OFFLINE"
status_text ActivityStatus.ended = codes "ENDED"
status_text ActivityStatus.unset = codes ""
status_text (ActivityStatus.other s) = s

module _ (E : Env) where
  unfoldable pub create_product : CreateProductInput → Action (World E) Product
  create_product input = do
    raise_if (leb_ℤ input.price (pos 0) || ltb_ℤ input.stock (pos 0))
        (failure (codes "price must be positive and stock cannot be negative"))
    insert_product E (new_product input)

  unfoldable pub list_products : World E → Result (List Product)
  list_products w = elim (E.products.find (λ _. true) w.db.products) [
    | ok ps ↦ ok (reverse ps)
    | err e ↦ err e
  ]

  -- `s.redisStock.Prewarm`, whose error is only printed; `until_now` is what `time.Until` reads.
  unfoldable pub prewarm : Bool → ℤ → Activity → World E → World E
  prewarm redis_stock until_now activity w =
      if redis_stock then record w { cache = (E.cache.prewarm until_now activity w.cache).1 } else w

  -- `now` is `time.Now()`.
  unfoldable pub create_activity : Bool → CreateActivityInput → ℤ → ℤ → Action (World E) Activity
  unfolding seconds prewarm
  create_activity redis_stock input now until_now = do
    raise_if (leb_ℤ input.price (pos 0) || leb_ℤ input.stock (pos 0))
        (failure (codes "price and stock must be positive"))
    product ←
        query_or (failure (codes "product not found"))
          (λ w. E.products.first (has_id product_columns input.product_id) w.db.products)
    raise_if (ltb_ℤ product.stock input.stock)
        (failure (codes "activity stock cannot exceed product stock"))
    activity ← insert_activity E (new_activity input now)
    λ w. (ok activity, prewarm redis_stock until_now activity w)

  unfoldable pub list_activities : World E → Result (List Activity)
  list_activities w = elim (E.activities.find (λ _. true) w.db.activities) [
    | ok xs ↦ ok (reverse xs)
    | err e ↦ err e
  ]

  -- The second half of `UpdateActivityStatus`: the row that was read goes back whole.
  unfoldable pub write_status : Activity → ActivityStatus → Action (World E) Activity
  write_status activity status w =
      let a = record activity { status = status } in
      (save_activity E a >> pure (stamp activity_columns (E.activities.clock w.db.activities) a)) w

  unfoldable pub update_activity_status : ℕ → ActivityStatus → Action (World E) Activity
  unfolding is_valid_activity_status write_status
  update_activity_status activity_id status = do
    raise_if (not (is_valid_activity_status status))
        (failure (codes "invalid activity status: " ++ status_text status))
    activity ←
        query_or (failure (codes "activity not found"))
          (λ w. E.activities.first (has_id activity_columns activity_id) w.db.activities)
    write_status activity status
