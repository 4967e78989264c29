-- ===== src/Orders/Restore.antt =====
-- `restoreStock` of internal/service/order.go: what a cancelled or closed order had taken goes back,
-- to the activity and the cache, or to the products of a cart order.
use go_order_lab.Prelude.{
  ℕ, Action, query, pure, ◌>>=◌, ◌>>◌, pos, ◌+ℤ◌, wrap64, text_eq, ltb, if◌then◌else◌,
}
use go_order_lab.Store.Rows.{has_id}
use go_order_lab.Model.{activity_columns, Order, OrderItem, product_columns}
use go_order_lab.Env.{Env, World, save_activity, save_product, for_each}
use go_order_lab.Orders.Service.{OrderService}

module _ (E : Env) where
  -- `s.redisStock.Release`
  unfoldable pub release : ℕ → ℕ → Action (World E) (Unit {0})
  release activity_id user_id w =
      let (r, s) = E.cache.release activity_id user_id w.cache in (r, record w { cache = s })

  unfoldable pub restore_item : OrderItem → Action (World E) (Unit {0})
  restore_item item = do
    product ← query (λ w. E.products.first (has_id product_columns item.product_id) w.db.products)
    save_product E (record product { stock = wrap64 (product.stock +ℤ item.quantity) })

  -- The activity's part of `restoreStock`.
  unfoldable pub restore_activity : OrderService → Order → Action (World E) (Unit {0})
  unfolding release
  restore_activity S order = do
    activity ←
        query (λ w. E.activities.first (has_id activity_columns order.activity_id) w.db.activities)
    save_activity E (record activity { stock = wrap64 (activity.stock +ℤ pos 1) })
    if S.redis_stock then release order.activity_id order.user_id else pure tt

  unfoldable pub restore_items : Order → Action (World E) (Unit {0})
  unfolding restore_item
  restore_items order = do
    items ←
        query (λ w. E.order_items.find (λ i. text_eq i.order_no order.order_no) w.db.order_items)
    for_each restore_item items

  unfoldable pub restore_stock : OrderService → Order → Action (World E) (Unit {0})
  unfolding restore_activity restore_items
  restore_stock S order =
      if ltb 0 order.activity_id then restore_activity S order else restore_items order
