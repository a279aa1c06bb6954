-- ===== src/SchemaRegistry.antt =====
-- The schema registry package (schema_registry/): wire format, caching client and serializers.
pub mod Wire
pub mod Http
pub mod Client
pub mod Serializer
mod Examples
