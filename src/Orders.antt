-- ===== src/Orders.antt =====
-- internal/service/order.go, the order service: its operations first, then what they do together.
pub mod Service
pub mod Publish
pub mod Restore
pub mod Create
pub mod Cancel
pub mod Payment
pub mod Worker
pub mod Compensate
pub mod Start
pub mod Coupon
pub mod Checkout
pub mod Reconcile
pub mod Queries
pub mod Life
pub mod Run
pub mod Keeps
pub mod Balance
pub mod Atomic
pub mod Effect
