-- ===== src/Kafka.antt =====
-- The Kafka client (kafka/).
pub mod Errors
pub mod Client
pub mod Consumer
pub mod Serializers
mod Examples
