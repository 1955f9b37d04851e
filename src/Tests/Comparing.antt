-- ===== src/Tests/Comparing.antt =====
-- Comparisons of slices and configurations.
use ingress_nginx.Prelude.{
  [], ◌∷◌, none, some, true, false, ◌≡◌, ◌↔◌, refl, String, ◌==◌, string_eq, on-IsEquiv,
}
use ingress_nginx.Sets.{compare, string_elements_match}
use ingress_nginx.Sets.Laws.{SameElements, compare_iff}
use ingress_nginx.Equality.Pointers.{all_found, equal_in_order, equal_ptr}
use ingress_nginx.Equality.Backend
use ingress_nginx.Equality.Exact.{IsSameBackend, IsSameEndpoint, backend_equal_iff}
use ingress_nginx.Types.Backend.{Backend, Endpoint, zero_backend}
use ingress_nginx.Equality.Backend.{service_equal, target_equal, endpoint_equal}
use ingress_nginx.Equality.Server.{server_ptr_equal}
use ingress_nginx.Equality.Configuration
use ingress_nginx.Equality.Configuration.{IsDeduplicated}
use ingress_nginx.Tests.Samples.{heap, endpoint}

compare_iff_example :
    (compare {A = String} (λ a b. a == b) (some ("a" ∷ "b" ∷ [])) (some ("b" ∷ "a" ∷ [])) ≡ true)
    ↔ SameElements {A = String} (λ a b. a == b) (some ("a" ∷ "b" ∷ [])) (some ("b" ∷ "a" ∷ []))
compare_iff_example =
    compare_iff (λ a b. a == b) (some ("a" ∷ "b" ∷ [])) (some ("b" ∷ "a" ∷ []))
      (on-IsEquiv (λ s. s))

string_elements_match_tests :
    (string_elements_match (some ("a" ∷ "b" ∷ "a" ∷ [])) (some ("a" ∷ "a" ∷ "b" ∷ [])) ≡ true)
    × (string_elements_match (some ("a" ∷ "b" ∷ "b" ∷ [])) (some ("a" ∷ "a" ∷ "b" ∷ [])) ≡ false)
    × (string_elements_match none (some []) ≡ false)
unfolding string_elements_match
string_elements_match_tests = (refl, refl, refl)

-- Two endpoints in either order.
abbrev two_ends : Backend
two_ends = record zero_backend {
  name = "shop-web-80";
  load_balancing = "ewma";
  endpoints = some (endpoint "10.0.0.1" ∷ endpoint "10.0.0.2" ∷ []);
}

abbrev two_ends_reordered : Backend
two_ends_reordered = record two_ends {
  endpoints = some (endpoint "10.0.0.2" ∷ endpoint "10.0.0.1" ∷ []);
}

backend_tests :
    (Backend.equal heap two_ends two_ends_reordered ≡ true)
    × (Backend.equal heap two_ends (record two_ends { load_balancing = "round_robin" }) ≡ false)
unfolding Backend.equal Backend.field_tests compare string_elements_match equal_ptr
    Backend.session_affinity_config_equal Backend.cookie_session_affinity_equal
    Backend.upstream_hash_by_config_equal Backend.compare_endpoints endpoint_equal
    Backend.traffic_shaping_policy_equal
backend_tests = (refl, refl)

backend_equal_iff_example :
    ((Backend.equal heap two_ends two_ends_reordered ≡ true)
      ↔ IsSameBackend heap two_ends two_ends_reordered)
    × ((e f : Endpoint) → (endpoint_equal heap e f ≡ true) ↔ IsSameEndpoint heap e f)
backend_equal_iff_example = backend_equal_iff heap two_ends two_ends_reordered

configurations : Unit {0}
unfolding Configuration.equal server_ptr_equal compare service_equal target_equal equal_ptr
    equal_in_order all_found Backend.equal Backend.field_tests Backend.compare_backends
    Backend.backend_ptr_equal Configuration.servers_equal Configuration.passthrough_found
    Configuration.passthrough_ptr_equal Configuration.passthrough_equal
    Configuration.compare_l4_service
configurations = tt
