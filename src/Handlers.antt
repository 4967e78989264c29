-- ===== src/Handlers.antt =====
-- internal/handler: the order handlers, and those of accounts, the catalog, the cart, addresses, coupons
-- and the administrators. The services and the clocks' values are arguments.
pub mod Orders
pub mod Shop
pub mod Placed
