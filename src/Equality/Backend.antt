-- ===== src/Equality/Backend.antt =====
-- internal/ingress/types_equals.go: `Equal` of a backend, of its parts and of endpoints.
use ingress_nginx.Prelude.{
  Bool, List, [], ◌∷◌, Slice, on, via, all_agree, IsEquiv, equiv_rules, string_eq, bool_eq, int_eq,
}
use ingress_nginx.Api.{Ref, Service, ObjectReference, int_or_string_eq}
use ingress_nginx.Sets.{compare, string_elements_match}
use ingress_nginx.Sets.Laws.{compare-IsEquiv, string_elements_match-IsEquiv}
use ingress_nginx.Types.Backend.{
  Backend, Endpoint, TrafficShapingPolicy, SessionAffinityConfig, CookieSessionAffinity,
  UpstreamHashByConfig,
}
use ingress_nginx.Types.Heap.{Heap}
use ingress_nginx.Equality.Pointers.{equal_ptr, equal_ptr-IsEquiv}

unfoldable pub cookie_session_affinity_equal : CookieSessionAffinity → CookieSessionAffinity → Bool
cookie_session_affinity_equal = all_agree (
    on (λ c. c.name)
    ∷ on (λ c. c.path)
    ∷ on (λ c. c.expires)
    ∷ on (λ c. c.max_age)
    ∷ on (λ c. c.same_site)
    ∷ on (λ c. c.conditional_same_site_none)
    ∷ [])

cookie_session_affinity_equal-IsEquiv : IsEquiv cookie_session_affinity_equal
unfolding cookie_session_affinity_equal
cookie_session_affinity_equal-IsEquiv = search equiv_rules depth 30

unfoldable pub session_affinity_config_equal : SessionAffinityConfig → SessionAffinityConfig → Bool
session_affinity_config_equal = all_agree (
    on (λ c. c.affinity_type)
    ∷ on (λ c. c.affinity_mode)
    ∷ via cookie_session_affinity_equal (λ c. c.cookie_session_affinity)
    ∷ [])

session_affinity_config_equal-IsEquiv : IsEquiv session_affinity_config_equal
unfolding session_affinity_config_equal
session_affinity_config_equal-IsEquiv =
    search (equiv_rules, cookie_session_affinity_equal-IsEquiv) depth 30

-- Called by no other method: a backend compares these configurations by `!=`.
unfoldable pub upstream_hash_by_config_equal : UpstreamHashByConfig → UpstreamHashByConfig → Bool
upstream_hash_by_config_equal = all_agree (
    on (λ c. c.upstream_hash_by)
    ∷ on (λ c. c.upstream_hash_by_subset)
    ∷ on (λ c. c.upstream_hash_by_subset_size)
    ∷ [])

pub upstream_hash_by_config_equal-IsEquiv : IsEquiv upstream_hash_by_config_equal
unfolding upstream_hash_by_config_equal
upstream_hash_by_config_equal-IsEquiv = search equiv_rules depth 30

unfoldable pub traffic_shaping_policy_equal : TrafficShapingPolicy → TrafficShapingPolicy → Bool
traffic_shaping_policy_equal = all_agree (
    on (λ c. c.weight)
    ∷ on (λ c. c.header)
    ∷ on (λ c. c.header_value)
    ∷ on (λ c. c.header_pattern)
    ∷ on (λ c. c.cookie)
    ∷ [])

traffic_shaping_policy_equal-IsEquiv : IsEquiv traffic_shaping_policy_equal
unfolding traffic_shaping_policy_equal
traffic_shaping_policy_equal-IsEquiv = search equiv_rules depth 30

-- b1.Service: the same pointer, or both not nil with the same namespace and name.
unfoldable pub service_equal : Service → Service → Bool
service_equal = all_agree (on (λ s. s.namespace) ∷ on (λ s. s.name) ∷ [])

pub service_equal-IsEquiv : IsEquiv service_equal
unfolding service_equal
service_equal-IsEquiv = search equiv_rules depth 30

-- e1.Target: the same pointer, or both not nil with the same UID and resource version.
unfoldable pub target_equal : ObjectReference → ObjectReference → Bool
target_equal = all_agree (on (λ t. t.uid) ∷ on (λ t. t.resource_version) ∷ [])

target_equal-IsEquiv : IsEquiv target_equal
unfolding target_equal
target_equal-IsEquiv = search equiv_rules depth 30

module _ (h : Heap) where
  unfoldable pub endpoint_equal : Endpoint → Endpoint → Bool
  endpoint_equal = all_agree (
      on (λ e. e.address)
      ∷ on (λ e. e.port)
      ∷ via (equal_ptr h.target target_equal) (λ e. e.target)
      ∷ [])

  -- Two endpoints compare equal exactly up to an equivalence relation, through pointers or not.
  pub endpoint_equal-IsEquiv : IsEquiv endpoint_equal
  unfolding endpoint_equal
  endpoint_equal-IsEquiv = search (equiv_rules, equal_ptr-IsEquiv, target_equal-IsEquiv) depth 30

  unfoldable pub compare_endpoints : Slice Endpoint → Slice Endpoint → Bool
  compare_endpoints = compare endpoint_equal

  pub compare_endpoints-IsEquiv : IsEquiv compare_endpoints
  unfolding compare_endpoints
  compare_endpoints-IsEquiv = compare-IsEquiv endpoint_equal endpoint_equal-IsEquiv

  unfoldable pub field_tests : List (Backend → Backend → Bool)
  field_tests =
      (on (λ b. b.name)
        ∷ on (λ b. b.no_server)
        ∷ via (equal_ptr h.service service_equal) (λ b. b.service)
        ∷ on (λ b. b.port)
        ∷ on (λ b. b.ssl_passthrough)
        ∷ via session_affinity_config_equal (λ b. b.session_affinity)
        -- b1.UpstreamHashBy != b2.UpstreamHashBy, of a struct: field by field
        ∷ via upstream_hash_by_config_equal (λ b. b.upstream_hash_by)
        ∷ on (λ b. b.load_balancing)
        ∷ via compare_endpoints (λ b. b.endpoints)
        ∷ via traffic_shaping_policy_equal (λ b. b.traffic_shaping_policy)
        ∷ via string_elements_match (λ b. b.alternative_backends)
        ∷ [])

  unfoldable pub equal : Backend → Backend → Bool
  equal = all_agree field_tests

  -- At every heap, `Backend.Equal` is reflexive, symmetric and transitive.
  pub backend_equal-IsEquiv : IsEquiv equal
  unfolding equal field_tests
  backend_equal-IsEquiv =
      search
        (
          equiv_rules, equal_ptr-IsEquiv, service_equal-IsEquiv,
          session_affinity_config_equal-IsEquiv, upstream_hash_by_config_equal-IsEquiv,
          compare_endpoints-IsEquiv, traffic_shaping_policy_equal-IsEquiv,
          string_elements_match-IsEquiv,
        )
        depth 30

  -- b1.Equal(b2) of pointers, the function of `compareBackends`.
  unfoldable pub backend_ptr_equal : Ref → Ref → Bool
  backend_ptr_equal = equal_ptr h.backend equal

  pub backend_ptr_equal-IsEquiv : IsEquiv backend_ptr_equal
  unfolding backend_ptr_equal
  backend_ptr_equal-IsEquiv = equal_ptr-IsEquiv _ _ backend_equal-IsEquiv

  unfoldable pub compare_backends : Slice Ref → Slice Ref → Bool
  compare_backends = compare backend_ptr_equal

  pub compare_backends-IsEquiv : IsEquiv compare_backends
  unfolding compare_backends
  compare_backends-IsEquiv = compare-IsEquiv backend_ptr_equal backend_ptr_equal-IsEquiv
