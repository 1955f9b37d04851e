-- ===== src/Controller.antt =====
-- internal/ingress/controller: from the ingresses of the cluster to the configuration of NGINX.
pub mod Endpoints
pub mod Locations
pub mod Services
pub mod Certificates
pub mod Secrets
pub mod Sizes
pub mod Servers
pub mod BackendServers
pub mod Dynamic
pub mod Streams
pub mod Sync
pub mod Placing
pub mod Annotated
pub mod Removed
pub mod Overlap
pub mod Upstreams
