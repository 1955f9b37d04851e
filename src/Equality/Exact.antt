-- ===== src/Equality/Exact.antt =====
-- Which backends Backend.Equal takes for the same.
use ingress_nginx.Prelude.{
  true, ◌&◌, String, ◌≡◌, ◌↔◌, arith, ◌==◌, string_eq, bool_eq, int_eq, eq-of-test, test-of-eq,
  on-IsEquiv, all_agree_iff,
}
use ingress_nginx.Api.{ObjectReference, int_or_string_eq}
use ingress_nginx.Sets.{compare, string_elements_match}
use ingress_nginx.Sets.Laws.{SameElements, compare_iff}
use ingress_nginx.Types.Backend.{Backend, Endpoint}
use ingress_nginx.Types.Heap.{Heap}
use ingress_nginx.Equality.Pointers.{equal_ptr}
use ingress_nginx.Equality.Backend.{
  service_equal, target_equal, endpoint_equal, endpoint_equal-IsEquiv, compare_endpoints,
  field_tests, equal,
}
use ingress_nginx.Equality.Parts.{
  SamePointers, IsSameAffinity, IsSameService, equal_ptr_iff, affinity_iff, hash_iff, policy_iff,
  service_iff,
}

abbrev pub IsSameTarget : ObjectReference → ObjectReference → Type 0
IsSameTarget t u = (t.uid ≡ u.uid) × (t.resource_version ≡ u.resource_version)

target_iff : (t u : ObjectReference) → (target_equal t u ≡ true) ↔ IsSameTarget t u
unfolding target_equal
target_iff t u = (
  λ h. (
    eq-of-test t.uid u.uid (ground (arith, h)),
    eq-of-test t.resource_version u.resource_version (ground (arith, h)),
  ),
  λ (a, b).
      ground (arith, test-of-eq t.uid u.uid a, test-of-eq t.resource_version u.resource_version b),
)

module _ (h : Heap) where
  pub record IsSameEndpoint (e f : Endpoint) : Type 0 where
    pub address : e.address ≡ f.address
    pub port : e.port ≡ f.port
    pub target : SamePointers h.target IsSameTarget e.target f.target

  endpoint_iff : (e f : Endpoint) → (endpoint_equal h e f ≡ true) ↔ IsSameEndpoint e f
  unfolding endpoint_equal
  endpoint_iff e f =
      let target = equal_ptr_iff h.target target_equal IsSameTarget target_iff e.target f.target in
      (
        λ t. record {
          address = eq-of-test e.address f.address (ground (arith, t));
          port = eq-of-test e.port f.port (ground (arith, t));
          target = target.0 (ground (arith, t));
        },
        λ s. ground (
          arith,
          test-of-eq e.address f.address s.address,
          test-of-eq e.port f.port s.port,
          target.1 s.target,
        ),
      )

  -- The endpoints and the alternative backends are the same in some order, as often each.
  pub record IsSameBackend (b c : Backend) : Type 0 where
    pub name : b.name ≡ c.name
    pub no_server : b.no_server ≡ c.no_server
    pub service : SamePointers h.service IsSameService b.service c.service
    pub port : b.port ≡ c.port
    pub ssl_passthrough : b.ssl_passthrough ≡ c.ssl_passthrough
    pub session_affinity : IsSameAffinity b.session_affinity c.session_affinity
    pub upstream_hash_by : b.upstream_hash_by ≡ c.upstream_hash_by
    pub load_balancing : b.load_balancing ≡ c.load_balancing
    pub endpoints : SameElements (endpoint_equal h) b.endpoints c.endpoints
    pub traffic_shaping_policy : b.traffic_shaping_policy ≡ c.traffic_shaping_policy
    pub alternative_backends :
        SameElements (λ (s t : String). s == t) b.alternative_backends c.alternative_backends

  same_service :
      (b c : Backend)
      → (equal_ptr h.service service_equal b.service c.service ≡ true)
        ↔ SamePointers h.service IsSameService b.service c.service
  same_service b c =
      equal_ptr_iff h.service service_equal IsSameService service_iff b.service c.service

  same_endpoints :
      (b c : Backend)
      → (compare (endpoint_equal h) b.endpoints c.endpoints ≡ true)
        ↔ SameElements (endpoint_equal h) b.endpoints c.endpoints
  same_endpoints b c =
      compare_iff (endpoint_equal h) b.endpoints c.endpoints (endpoint_equal-IsEquiv h)

  same_alternatives :
      (b c : Backend)
      → (compare (λ (s t : String). s == t) b.alternative_backends c.alternative_backends ≡ true)
        ↔ SameElements (λ (s t : String). s == t) b.alternative_backends c.alternative_backends
  same_alternatives b c =
      compare_iff (λ (s t : String). s == t) b.alternative_backends c.alternative_backends
        (on-IsEquiv (λ s. s))

  equal-IsSameBackend : (b c : Backend) → equal h b c ≡ true → IsSameBackend b c
  unfolding equal field_tests compare_endpoints string_elements_match
  equal-IsSameBackend b c t =
      let all = (all_agree_iff (field_tests h) b c).0 t in
      record {
        name = eq-of-test b.name c.name all.0;
        no_server = eq-of-test b.no_server c.no_server all.1.0;
        service = (same_service b c).0 all.1.1.0;
        port = eq-of-test b.port c.port all.1.1.1.0;
        ssl_passthrough = eq-of-test b.ssl_passthrough c.ssl_passthrough all.1.1.1.1.0;
        session_affinity = (affinity_iff b.session_affinity c.session_affinity).0 all.1.1.1.1.1.0;
        upstream_hash_by = (hash_iff b.upstream_hash_by c.upstream_hash_by).0 all.1.1.1.1.1.1.0;
        load_balancing = eq-of-test b.load_balancing c.load_balancing all.1.1.1.1.1.1.1.0;
        endpoints = (same_endpoints b c).0 all.1.1.1.1.1.1.1.1.0;
        traffic_shaping_policy =
            (policy_iff b.traffic_shaping_policy c.traffic_shaping_policy).0
              all.1.1.1.1.1.1.1.1.1.0;
        alternative_backends = (same_alternatives b c).0 all.1.1.1.1.1.1.1.1.1.1.0;
      }

  IsSameBackend-equal : (b c : Backend) → IsSameBackend b c → equal h b c ≡ true
  unfolding equal field_tests compare_endpoints string_elements_match
  IsSameBackend-equal b c s = (all_agree_iff (field_tests h) b c).1 (
      test-of-eq b.name c.name s.name
      & test-of-eq b.no_server c.no_server s.no_server
      & (same_service b c).1 s.service
      & test-of-eq b.port c.port s.port
      & test-of-eq b.ssl_passthrough c.ssl_passthrough s.ssl_passthrough
      & (affinity_iff b.session_affinity c.session_affinity).1 s.session_affinity
      & (hash_iff b.upstream_hash_by c.upstream_hash_by).1 s.upstream_hash_by
      & test-of-eq b.load_balancing c.load_balancing s.load_balancing
      & (same_endpoints b c).1 s.endpoints
      & (policy_iff b.traffic_shaping_policy c.traffic_shaping_policy).1 s.traffic_shaping_policy
      & (same_alternatives b c).1 s.alternative_backends
      & tt)

  -- Backend.Equal of two backends is true exactly if their names, ports, load balancing, hashing,
  -- traffic shaping and the two flags are the same; their services are one pointer or have one
  -- namespace and name; their session affinities have the type, the mode and the cookie's name,
  -- path, expiry, greatest age, SameSite and its condition in common; and their endpoints and
  -- their alternative backends are the same up to the order, both nil or both not nil. Two
  -- endpoints count as the same exactly if their addresses and ports are, and their targets are
  -- one pointer or have one UID and resource version.
  pub backend_equal_iff :
      (b c : Backend)
      → ((equal h b c ≡ true) ↔ IsSameBackend b c)
        × ((e f : Endpoint) → (endpoint_equal h e f ≡ true) ↔ IsSameEndpoint e f)
  backend_equal_iff b c = ((equal-IsSameBackend b c, IsSameBackend-equal b c), endpoint_iff)
