-- ===== src/Types.antt =====
-- internal/ingress/types.go: the data that the controller builds and NGINX is configured from.
pub mod Annotations
pub mod Ingress
pub mod Backend
pub mod Location
pub mod Server
pub mod Configuration
pub mod Heap
