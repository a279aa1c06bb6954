-- ===== src/Kafka/Examples.antt =====
-- The consumer, the serializers and the client of Kafka on concrete values.
mod Clients
mod Serializing
mod Consuming
