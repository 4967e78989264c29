-- ===== src/Rabbit.antt =====
-- internal/service/rabbitmq.go: the messages about orders and their publication.
pub mod Message
pub mod Queue
