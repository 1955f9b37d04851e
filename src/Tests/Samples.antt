-- ===== src/Tests/Samples.antt =====
-- Objects that the tests use.
use ingress_nginx.Prelude.{ℕ, zero, suc, [], ◌∷◌, none, some, String}
use ingress_nginx.Api.{zero_service}
use ingress_nginx.Types.Backend.{Endpoint, zero_backend}
use ingress_nginx.Types.Location.{zero_location}
use ingress_nginx.Types.Server.{zero_server, zero_ssl_cert}
use ingress_nginx.Types.Configuration.{
  Configuration, zero_configuration, zero_ssl_passthrough_backend,
}
use ingress_nginx.Types.Heap.{Heap}

abbrev pub endpoint : String → Endpoint
endpoint address = record { address = address; port = "80"; target = none }

-- The passthrough backends at the addresses 0 and 1 differ.
abbrev host_of : ℕ → String
host_of zero = "a.example"
host_of (suc n) = "b.example"

abbrev pub heap : Heap
heap = record {
  service = λ a. zero_service;
  target = λ a. record { uid = "u"; resource_version = "1" };
  ssl_cert = λ a. zero_ssl_cert;
  backend = λ a. record zero_backend { name = host_of a };
  location = λ a. zero_location;
  server = λ a. record zero_server { hostname = host_of a; aliases = some ("x" ∷ "y" ∷ []) };
  passthrough = λ a. record zero_ssl_passthrough_backend { hostname = host_of a };
  configuration = λ a. zero_configuration;
}

abbrev pub configuration : Configuration
configuration = record zero_configuration {
  backends = some (some 0 ∷ some 1 ∷ []);
  servers = some (some 0 ∷ some 1 ∷ []);
  passthrough_backends = some (some 0 ∷ some 1 ∷ []);
}

-- The same objects, some of them in another order.
abbrev pub reordered : Configuration
reordered = record configuration {
  backends = some (some 1 ∷ some 0 ∷ []);
  passthrough_backends = some (some 1 ∷ some 0 ∷ []);
}
