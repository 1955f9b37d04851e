-- ===== src/Tests/Streams.antt =====
-- Runs of the stream services.
use ingress_nginx.Prelude.{
  pos, true, false, Option, none, some, [], ◌∷◌, String, ◌≡◌, refl, ◌==◌, string_eq, if◌then◌else◌,
}
use ingress_nginx.Api.{Service, EndpointSubset, zero_service, zero_int_or_string}
use ingress_nginx.Maps.{Map}
use ingress_nginx.Controller.Services.{StoreView}
use ingress_nginx.Controller.Streams.{ListenPorts, get_stream_services, l4_service}
use ingress_nginx.Controller.Streams.Allowed.{IsStreamList, get_stream_services-IsStreamList}
use ingress_nginx.Tests.Backends.{names}

abbrev dns : Service
dns = record zero_service {
  namespace = "ns";
  name = "dns";
  service_type = "ClusterIP";
  ports =
      record { name = "dns"; protocol = "TCP"; port = pos 53; target_port = zero_int_or_string }
      ∷ [];
}

abbrev dns_subset : EndpointSubset
dns_subset = record {
  addresses = record { ip = "10.0.0.1"; target_ref = none } ∷ [];
  ports = record { name = "dns"; port = pos 5353; protocol = "TCP" } ∷ [];
}

abbrev store : StoreView
store = record {
  get_service = λ key. if key == "ns/dns" then some 7 else none;
  service_at = λ a. dns;
  get_service_endpoints = λ key. some (dns_subset ∷ []);
  load_balancing = "";
}

abbrev listen_ports : ListenPorts
listen_ports = record {
  http = pos 80;
  https = pos 443;
  ssl_proxy = pos 442;
  health = pos 10254;
  default = pos 8181;
}

abbrev config_map : String → Option (Map String)
config_map name = some (
    ("9053", "ns/dns:53:Proxy")
    ∷ ("443", "ns/dns:53")
    ∷ ("x", "ns/dns:53")
    ∷ ("53", "ns/dns:dns::PROXY")
    ∷ ("54", "ns/dns:80")
    ∷ ("55", "ns/other:53")
    ∷ [])

services :
    get_stream_services names store "TCP" listen_ports config_map "ns/tcp"
    ≡ some (
        l4_service names store "TCP"
          (pos 53)
          "ns"
          "dns"
          "dns"
          (record { decode = false; encode = true })
          (record { address = "10.0.0.1"; port = "5353"; target = none } ∷ [])
          7
        ∷ l4_service names store "TCP"
            (pos 9053)
            "ns"
            "dns"
            "53"
            (record { decode = true; encode = false })
            (record { address = "10.0.0.1"; port = "5353"; target = none } ∷ [])
            7
        ∷ [])
unfolding get_stream_services
services = refl

get_stream_services-IsStreamList_example :
    IsStreamList names store "TCP" listen_ports
      (get_stream_services names store "TCP" listen_ports config_map "ns/tcp")
get_stream_services-IsStreamList_example =
    get_stream_services-IsStreamList names store "TCP" listen_ports config_map "ns/tcp"
