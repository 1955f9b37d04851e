-- ===== src/Equality/Configuration.antt =====
-- internal/ingress/types_equals.go: `Equal` of stream services, of passthrough backends and of a
-- whole configuration.
use ingress_nginx.Prelude.{
  Bool, [], ◌∷◌, none, some, Slice, elems, len, on, via, all_agree, IsEquiv, IsReflexive,
  equiv_rules, reflexive_rules, string_eq, bool_eq, int_eq, nat_eq, All, ◌==◌,
}
use ingress_nginx.Api.{Ref, int_or_string_eq}
use ingress_nginx.Sets.{compare}
use ingress_nginx.Sets.Laws.{compare-IsEquiv}
use ingress_nginx.Types.Configuration.{
  ProxyProtocol, L4Backend, L4Service, SslPassthroughBackend, Configuration,
}
use ingress_nginx.Types.Heap.{Heap}
use ingress_nginx.Equality.Pointers.{
  equal_ptr, equal_ptr-IsEquiv, equal_in_order, equal_in_order-IsReflexive, all_found,
  all_found-IsReflexive,
}
use ingress_nginx.Equality.Distinct.{AllDistinct}
use ingress_nginx.Equality.Backend.{
  service_equal, service_equal-IsEquiv, compare_endpoints, compare_endpoints-IsEquiv,
  compare_backends, compare_backends-IsEquiv,
}
use ingress_nginx.Equality.Server.{
  ssl_cert_equal, ssl_cert_equal-IsEquiv, server_ptr_equal, server_ptr_equal-IsReflexive,
}

-- l4b1.ProxyProtocol != l4b2.ProxyProtocol, of a struct.
proxy_protocol_equal : ProxyProtocol → ProxyProtocol → Bool
proxy_protocol_equal = all_agree (on (λ p. p.decode) ∷ on (λ p. p.encode) ∷ [])

proxy_protocol_equal-IsEquiv : IsEquiv proxy_protocol_equal
unfolding proxy_protocol_equal
proxy_protocol_equal-IsEquiv = search equiv_rules depth 30

unfoldable pub l4_backend_equal : L4Backend → L4Backend → Bool
unfolding proxy_protocol_equal
l4_backend_equal = all_agree (
    on (λ b. b.port)
    ∷ on (λ b. b.name)
    ∷ on (λ b. b.namespace)
    ∷ on (λ b. b.protocol)
    ∷ via proxy_protocol_equal (λ b. b.proxy_protocol)
    ∷ [])

l4_backend_equal-IsEquiv : IsEquiv l4_backend_equal
unfolding l4_backend_equal
l4_backend_equal-IsEquiv = search (equiv_rules, proxy_protocol_equal-IsEquiv) depth 30

module _ (h : Heap) where
  unfoldable pub l4_service_equal : L4Service → L4Service → Bool
  l4_service_equal = all_agree (
      on (λ s. s.port)
      ∷ via l4_backend_equal (λ s. s.backend)
      ∷ via (compare_endpoints h) (λ s. s.endpoints)
      ∷ [])

  l4_service_equal-IsEquiv : IsEquiv l4_service_equal
  unfolding l4_service_equal
  l4_service_equal-IsEquiv =
      search (equiv_rules, l4_backend_equal-IsEquiv, compare_endpoints-IsEquiv) depth 30

  unfoldable pub compare_l4_service : Slice L4Service → Slice L4Service → Bool
  compare_l4_service = compare l4_service_equal

  compare_l4_service-IsEquiv : IsEquiv compare_l4_service
  unfolding compare_l4_service
  compare_l4_service-IsEquiv = compare-IsEquiv l4_service_equal l4_service_equal-IsEquiv

  unfoldable pub passthrough_equal : SslPassthroughBackend → SslPassthroughBackend → Bool
  passthrough_equal = all_agree (
      on (λ b. b.backend)
      ∷ on (λ b. b.hostname)
      ∷ on (λ b. b.port)
      ∷ via (equal_ptr h.service service_equal) (λ b. b.service)
      ∷ [])

  pub passthrough_equal-IsEquiv : IsEquiv passthrough_equal
  unfolding passthrough_equal
  passthrough_equal-IsEquiv =
      search (equiv_rules, equal_ptr-IsEquiv, service_equal-IsEquiv) depth 30

  unfoldable pub passthrough_ptr_equal : Ref → Ref → Bool
  passthrough_ptr_equal = equal_ptr h.passthrough passthrough_equal

  pub passthrough_ptr_equal-IsEquiv : IsEquiv passthrough_ptr_equal
  unfolding passthrough_ptr_equal
  passthrough_ptr_equal-IsEquiv = equal_ptr-IsEquiv _ _ passthrough_equal-IsEquiv

  -- The loop over c1.Servers, sorted by host name.
  unfoldable pub servers_equal : Slice Ref → Slice Ref → Bool
  servers_equal a b = equal_in_order (server_ptr_equal h) (elems a) (elems b)

  -- The loop over c1.PassthroughBackends.
  unfoldable pub passthrough_found : Slice Ref → Slice Ref → Bool
  passthrough_found a b = all_found passthrough_ptr_equal (elems a) (elems b)

  unfoldable pub equal : Configuration → Configuration → Bool
  equal = all_agree (
      via (equal_ptr h.ssl_cert ssl_cert_equal) (λ c. c.default_ssl_certificate)
      ∷ via (compare_backends h) (λ c. c.backends)
      ∷ on (λ c. len c.servers)
      ∷ via servers_equal (λ c. c.servers)
      ∷ via compare_l4_service (λ c. c.tcp_endpoints)
      ∷ via compare_l4_service (λ c. c.udp_endpoints)
      ∷ on (λ c. len c.passthrough_backends)
      ∷ via passthrough_found (λ c. c.passthrough_backends)
      ∷ on (λ c. c.backend_config_checksum)
      ∷ [])

  -- c1.Equal(c2) of pointers, as the controller calls it on its running configuration.
  unfoldable pub configuration_ptr_equal : Ref → Ref → Bool
  configuration_ptr_equal = equal_ptr h.configuration equal

  servers_equal-IsReflexive : IsReflexive servers_equal
  unfolding servers_equal
  servers_equal-IsReflexive a =
      equal_in_order-IsReflexive _ (server_ptr_equal-IsReflexive h) (elems a)

  passthrough_found-IsReflexive : IsReflexive passthrough_found
  unfolding passthrough_found
  passthrough_found-IsReflexive a =
      all_found-IsReflexive _ passthrough_ptr_equal-IsEquiv.reflexive (elems a)

  -- At every heap, `Configuration.Equal` of a configuration and itself is true.
  pub equal-IsReflexive : IsReflexive equal
  unfolding equal
  equal-IsReflexive c =
      search
        (
          reflexive_rules, equiv_rules, equal_ptr-IsEquiv, ssl_cert_equal-IsEquiv,
          compare_backends-IsEquiv, servers_equal-IsReflexive, compare_l4_service-IsEquiv,
          passthrough_found-IsReflexive,
        )
        depth 50 fits 20000

  -- No two passthrough backends are equal, and no server has two equal aliases.
  abbrev pub AliasesDistinct : Ref → Type 0
  AliasesDistinct none = Unit
  AliasesDistinct (some a) = AllDistinct (λ a1 a2. a1 == a2) (elems (h.server a).aliases)

  abbrev pub IsDeduplicated : Configuration → Type 0
  IsDeduplicated c =
      AllDistinct passthrough_ptr_equal (elems c.passthrough_backends)
      × All AliasesDistinct (elems c.servers)
