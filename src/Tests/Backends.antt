-- ===== src/Tests/Backends.antt =====
-- Runs of the endpoints of a service.
use ingress_nginx.Prelude.{
  pos, List, [], ◌∷◌, none, some, false, ◌≡◌, refl, String, ◌==◌, string_eq, All, if◌then◌else◌,
  Option,
}
use ingress_nginx.Api.{
  Service, ServicePort, EndpointSubset, zero_service, zero_int_or_string, meta_namespace_key,
}
use ingress_nginx.Strings.{◌^^◌}
use ingress_nginx.Controller.Endpoints.{Names, get_endpoints}
use ingress_nginx.Controller.Endpoints.Laws.{NoRepeats, joined, IsFrom, get_endpoints_sound}
use ingress_nginx.Controller.Endpoints.Complete.{AllServed, get_endpoints_complete}

abbrev pub names : Names
names = record {
  is_ip = λ s. s == "127.0.0.1";
  is_loopback = λ s. s == "127.0.0.1";
  is_dns1123_subdomain = λ s. s == "example.com";
  join_host_port = λ host port. host ^^ (":" ^^ port);
  int_value = λ p. p.int_val;
}

abbrev web : ServicePort
web = record { name = "http"; protocol = "TCP"; port = pos 80; target_port = zero_int_or_string }

abbrev service : Service
service = record zero_service {
  namespace = "ns";
  name = "svc";
  service_type = "ClusterIP";
  ports = web ∷ [];
}

abbrev subset : EndpointSubset
subset = record {
  addresses =
      record { ip = "10.0.0.1"; target_ref = some 1 }
      ∷ record { ip = "10.0.0.2"; target_ref = none }
      ∷ record { ip = "10.0.0.1"; target_ref = none }
      ∷ [];
  ports =
      record { name = "http"; port = pos 8080; protocol = "TCP" }
      ∷ record { name = "http"; port = pos 9090; protocol = "UDP" }
      ∷ record { name = "other"; port = pos 7070; protocol = "TCP" }
      ∷ [];
}

abbrev subsets_of : String → Option (List EndpointSubset)
subsets_of key = if key == "ns/svc" then some (subset ∷ []) else none

endpoints_test :
    get_endpoints names (some service) (some web) "TCP" subsets_of
    ≡ record { address = "10.0.0.1"; port = "8080"; target = some 1 }
      ∷ record { address = "10.0.0.2"; port = "8080"; target = none }
      ∷ []
unfolding get_endpoints
endpoints_test = refl

external_tests :
    (get_endpoints names
        (some (record service { service_type = "ExternalName"; external_name = "localhost" }))
        (some web)
        "TCP"
        subsets_of
      ≡ [])
    × (get_endpoints names
          (some (record service { service_type = "ExternalName"; external_name = "example.com." }))
          (some (record web {
            target_port = record { is_string = false; int_val = pos 443; str_val = "" };
          }))
          "TCP"
          subsets_of
        ≡ record { address = "example.com."; port = "443"; target = none } ∷ [])
unfolding get_endpoints
external_tests = (refl, refl)

get_endpoints_sound_example :
    NoRepeats (joined names (get_endpoints names (some service) (some web) "TCP" subsets_of))
    × All
        (IsFrom names web "TCP" (subset ∷ []))
        (get_endpoints names (some service) (some web) "TCP" subsets_of)
get_endpoints_sound_example =
    get_endpoints_sound names service web "TCP" subsets_of (subset ∷ []) refl
      (unfold meta_namespace_key in refl)

get_endpoints_complete_example :
    AllServed names web "TCP"
      (get_endpoints names (some service) (some web) "TCP" subsets_of)
      (subset ∷ [])
get_endpoints_complete_example =
    get_endpoints_complete names service web "TCP" subsets_of (subset ∷ []) refl
      (unfold meta_namespace_key in refl)
