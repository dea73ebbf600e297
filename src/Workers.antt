-- ===== src/Workers.antt =====
-- internal/worker/workers.go: the reference resolver, the outbox publisher and the input consumer.
pub mod Resolver
pub mod Publisher
pub mod Consumer
pub mod Manager
