-- ===== src/Minio.antt =====
-- The object storage client (minio/).
pub mod Errors
pub mod BufferPool
pub mod Downloads
pub mod Observer
pub mod Streams
pub mod Connection
pub mod Links
pub mod Objects
pub mod Buckets
pub mod PartSizes
pub mod Multipart
mod Examples
