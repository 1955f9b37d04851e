-- ===== src/Tests/Dynamic.antt =====
-- Runs of the test for a reload.
use ingress_nginx.Prelude.{ℕ, zero, suc, [], ◌∷◌, none, some, true, false, ◌≡◌, refl, pos}
use ingress_nginx.Types.Backend.{zero_endpoint}
use ingress_nginx.Types.Configuration.{Configuration, zero_configuration, zero_l4_service}
use ingress_nginx.Types.Heap.{Heap}
use ingress_nginx.Types.Server.{Server, zero_server, zero_ssl_cert}
use ingress_nginx.Controller.Dynamic.{is_dynamic_configuration_enough}
use ingress_nginx.Controller.Dynamic.Laws.{DifferDynamically, dynamic_is_enough}
use ingress_nginx.Tests.Samples.{heap}

-- The servers at 0 and 1 have different certificates.
abbrev server_at : ℕ → Server
server_at zero = record zero_server { hostname = "a.example"; ssl_cert = some 0 }
server_at (suc n) = record zero_server { hostname = "a.example"; ssl_cert = some 1 }

abbrev reload_heap : Heap
reload_heap = record heap {
  server = server_at;
  ssl_cert = λ a. record zero_ssl_cert { pem_sha = "x" };
}

abbrev running : Configuration
running = record zero_configuration {
  backends = some (some 0 ∷ []);
  servers = some (some 0 ∷ []);
  tcp_endpoints =
      some (record zero_l4_service { port = pos 53; endpoints = some (zero_endpoint ∷ []) } ∷ []);
}

abbrev next : Configuration
next = record zero_configuration {
  backends = some (some 1 ∷ []);
  servers = some (some 1 ∷ []);
  tcp_endpoints = some (record zero_l4_service { port = pos 53; endpoints = none } ∷ []);
}

differ : DifferDynamically reload_heap running next
differ = record {
  servers = (refl, tt);
  tcp = refl;
  udp = refl;
  passthrough = refl;
  checksum = refl;
  certificate = refl;
}

dynamic_is_enough_example : is_dynamic_configuration_enough reload_heap running next ≡ some true
dynamic_is_enough_example = dynamic_is_enough reload_heap running next differ

-- Another port needs a reload.
port_changed :
    is_dynamic_configuration_enough reload_heap running
      (record next { tcp_endpoints = some (record zero_l4_service { port = pos 54 } ∷ []) })
    ≡ some false
unfolding is_dynamic_configuration_enough ingress_nginx.Equality.Pointers.equal_ptr
    ingress_nginx.Equality.Backend.compare_backends ingress_nginx.Sets.compare
    ingress_nginx.Equality.Configuration.servers_equal
    ingress_nginx.Equality.Pointers.equal_in_order ingress_nginx.Equality.Server.server_ptr_equal
    ingress_nginx.Equality.Server.equal ingress_nginx.Equality.Server.aliases_found
    ingress_nginx.Equality.Pointers.all_found ingress_nginx.Annotations.AuthTls.equal
    ingress_nginx.Annotations.Resolver.auth_ssl_cert_equal
    ingress_nginx.Equality.Server.locations_equal
    ingress_nginx.Equality.Configuration.compare_l4_service
    ingress_nginx.Equality.Configuration.l4_service_equal
port_changed = refl

nil_server :
    is_dynamic_configuration_enough reload_heap (record running { servers = some (none ∷ []) }) next
    ≡ none
unfolding is_dynamic_configuration_enough
nil_server = refl
