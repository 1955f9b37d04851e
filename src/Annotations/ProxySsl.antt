-- ===== src/Annotations/ProxySsl.antt =====
-- internal/ingress/annotations/proxyssl/main.go: `Config` and `Equal`.
use ingress_nginx.Prelude.{
  Bool, IsEquiv, String, [], all_agree, equiv_rules, int_eq, on, pos, string_eq, via, ℤ, ◌∷◌,
}
use ingress_nginx.Annotations.Resolver.{
  AuthSslCert, zero_auth_ssl_cert, AuthSslCert-equal-IsEquiv, auth_ssl_cert_equal,
}

pub record Config : Type 0 where
  pub auth_ssl_cert : AuthSslCert
  pub ciphers : String
  pub protocols : String
  pub proxy_ssl_name : String
  pub verify : String
  pub verify_depth : ℤ
  pub proxy_ssl_server_name : String

-- The zero value.
abbrev pub zero_config : Config
zero_config = record {
  auth_ssl_cert = zero_auth_ssl_cert;
  ciphers = "";
  protocols = "";
  proxy_ssl_name = "";
  verify = "";
  verify_depth = pos 0;
  proxy_ssl_server_name = "";
}

unfoldable pub equal : Config → Config → Bool
equal = all_agree (
    via auth_ssl_cert_equal (λ c. c.auth_ssl_cert)
    ∷ on (λ c. c.ciphers)
    ∷ on (λ c. c.protocols)
    ∷ on (λ c. c.verify)
    ∷ on (λ c. c.verify_depth)
    ∷ on (λ c. c.proxy_ssl_server_name)
    ∷ [])

pub equal-IsEquiv : IsEquiv equal
unfolding equal
equal-IsEquiv = search (equiv_rules, AuthSslCert-equal-IsEquiv) depth 30
