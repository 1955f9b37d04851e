-- ===== src/Types/Heap.antt =====
-- What stands at the addresses of the program's objects. Objects are not changed while they are
-- compared, so that a heap is a function for each type.
use ingress_nginx.Prelude.{ℕ}
use ingress_nginx.Api.{Service, ObjectReference}
use ingress_nginx.Types.Backend.{Backend}
use ingress_nginx.Types.Location.{Location}
use ingress_nginx.Types.Server.{SslCert, Server}
use ingress_nginx.Types.Configuration.{SslPassthroughBackend, Configuration}

pub record Heap : Type 0 where
  pub service : ℕ → Service
  pub target : ℕ → ObjectReference
  pub ssl_cert : ℕ → SslCert
  pub backend : ℕ → Backend
  pub location : ℕ → Location
  pub server : ℕ → Server
  pub passthrough : ℕ → SslPassthroughBackend
  pub configuration : ℕ → Configuration
