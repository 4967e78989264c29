-- ===== src/Redis.antt =====
-- internal/service/redis_stock.go: the stock cache on a Redis server.
pub mod Commands
pub mod Keys
pub mod Scripts
pub mod Stock
pub mod Reserve
pub mod Release
pub mod Cache
