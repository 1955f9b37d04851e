-- ===== src/Equality/Location.antt =====
-- internal/ingress/types_equals.go: `Equal` of a location. `PathType`, `Ingress`, `IngressPath`,
-- `ProxySSL` and `DefaultBackend` take no part in it, and `Denied` is compared as a pointer.
use ingress_nginx.Prelude.{
  Bool, [], ◌∷◌, ℤ, Slice, on, via, all_agree, IsEquiv, equiv_rules, on-IsEquiv, string_eq, bool_eq,
  int_eq, nat_eq, option_eq, ◌==◌,
}
use ingress_nginx.Api.{Ref, port_string}
use ingress_nginx.Sets.{compare}
use ingress_nginx.Sets.Laws.{compare-IsEquiv}
use ingress_nginx.Annotations.Auth
use ingress_nginx.Annotations.AuthReq
use ingress_nginx.Annotations.Connection
use ingress_nginx.Annotations.Cors
use ingress_nginx.Annotations.FastCgi
use ingress_nginx.Annotations.GlobalRateLimit
use ingress_nginx.Annotations.InfluxDb
use ingress_nginx.Annotations.IpWhitelist
use ingress_nginx.Annotations.Log
use ingress_nginx.Annotations.Mirror
use ingress_nginx.Annotations.ModSecurity
use ingress_nginx.Annotations.OpenTracing
use ingress_nginx.Annotations.Proxy
use ingress_nginx.Annotations.RateLimit
use ingress_nginx.Annotations.Redirect
use ingress_nginx.Annotations.Rewrite
use ingress_nginx.Types.Location.{Location}
use ingress_nginx.Types.Heap.{Heap}
use ingress_nginx.Equality.Pointers.{equal_ptr, equal_ptr-IsEquiv}
use ingress_nginx.Equality.Backend.{service_equal, service_equal-IsEquiv}

unfoldable pub compare_ints : Slice ℤ → Slice ℤ → Bool
compare_ints = compare (λ b1 b2. b1 == b2)

compare_ints-IsEquiv : IsEquiv compare_ints
unfolding compare_ints
compare_ints-IsEquiv = compare-IsEquiv _ (on-IsEquiv (λ n. n))

module _ (h : Heap) where
  unfoldable pub equal : Location → Location → Bool
  equal = all_agree (
      on (λ l. l.path)
      ∷ on (λ l. l.is_def_backend)
      ∷ on (λ l. l.backend)
      ∷ via (equal_ptr h.service service_equal) (λ l. l.service)
      ∷ on (λ l. port_string l.port)
      ∷ via Auth.equal (λ l. l.basic_digest_auth)
      ∷ on (λ l. l.denied)
      ∷ via Cors.equal (λ l. l.cors_config)
      ∷ via AuthReq.equal (λ l. l.external_auth)
      ∷ on (λ l. l.enable_global_auth)
      ∷ on (λ l. l.http2_push_preload)
      ∷ via RateLimit.equal (λ l. l.rate_limit)
      ∷ via GlobalRateLimit.equal (λ l. l.global_rate_limit)
      ∷ via Redirect.equal (λ l. l.redirect)
      ∷ via Rewrite.equal (λ l. l.rewrite)
      ∷ via IpWhitelist.equal (λ l. l.whitelist)
      ∷ via Proxy.equal (λ l. l.proxy)
      ∷ on (λ l. l.use_port_in_redirects)
      ∷ on (λ l. l.configuration_snippet)
      ∷ on (λ l. l.client_body_buffer_size)
      ∷ on (λ l. l.upstream_vhost)
      ∷ on (λ l. l.x_forwarded_prefix)
      ∷ via Connection.equal (λ l. l.connection)
      ∷ via Log.equal (λ l. l.logs)
      ∷ via InfluxDb.equal (λ l. l.influxdb)
      ∷ on (λ l. l.backend_protocol)
      ∷ via FastCgi.equal (λ l. l.fastcgi)
      ∷ via compare_ints (λ l. l.custom_http_errors)
      ∷ via ModSecurity.equal (λ l. l.mod_security)
      ∷ on (λ l. l.satisfy)
      ∷ on (λ l. l.default_backend_upstream_name)
      ∷ via OpenTracing.equal (λ l. l.opentracing)
      ∷ via Mirror.equal (λ l. l.mirror)
      ∷ [])

  -- At every heap, `Location.Equal` is reflexive, symmetric and transitive.
  pub location_equal-IsEquiv : IsEquiv equal
  unfolding equal
  location_equal-IsEquiv =
      search
        (
          equiv_rules, equal_ptr-IsEquiv, service_equal-IsEquiv, compare_ints-IsEquiv,
          Auth.equal-IsEquiv, Cors.equal-IsEquiv, AuthReq.equal-IsEquiv, RateLimit.equal-IsEquiv,
          GlobalRateLimit.equal-IsEquiv, Redirect.equal-IsEquiv, Rewrite.equal-IsEquiv,
          IpWhitelist.equal-IsEquiv, Proxy.equal-IsEquiv, Connection.equal-IsEquiv,
          Log.equal-IsEquiv, InfluxDb.equal-IsEquiv, FastCgi.equal-IsEquiv,
          ModSecurity.equal-IsEquiv, OpenTracing.equal-IsEquiv, Mirror.equal-IsEquiv,
        )
        depth 50 fits 20000

  unfoldable pub location_ptr_equal : Ref → Ref → Bool
  location_ptr_equal = equal_ptr h.location equal

  pub location_ptr_equal-IsEquiv : IsEquiv location_ptr_equal
  unfolding location_ptr_equal
  location_ptr_equal-IsEquiv = equal_ptr-IsEquiv _ _ location_equal-IsEquiv
