-- ===== src/Annotations/AuthTls.antt =====
-- internal/ingress/annotations/authtls/main.go: `Config` and `Equal`.
use ingress_nginx.Prelude.{
  Bool, IsEquiv, String, [], all_agree, bool_eq, equiv_rules, false, int_eq, on, pos, string_eq,
  via, ℤ, ◌∷◌,
}
use ingress_nginx.Annotations.Resolver.{
  AuthSslCert, zero_auth_ssl_cert, AuthSslCert-equal-IsEquiv, auth_ssl_cert_equal,
}

pub record Config : Type 0 where
  pub auth_ssl_cert : AuthSslCert
  pub verify_client : String
  pub validation_depth : ℤ
  pub error_page : String
  pub pass_cert_to_upstream : Bool
  pub ocsp : String
  pub ocsp_responder : String
  pub ocsp_cache : String
  pub auth_tls_error : String

-- The zero value.
abbrev pub zero_config : Config
zero_config = record {
  auth_ssl_cert = zero_auth_ssl_cert;
  verify_client = "";
  validation_depth = pos 0;
  error_page = "";
  pass_cert_to_upstream = false;
  ocsp = "";
  ocsp_responder = "";
  ocsp_cache = "";
  auth_tls_error = "";
}

unfoldable pub equal : Config → Config → Bool
equal = all_agree (
    via auth_ssl_cert_equal (λ c. c.auth_ssl_cert)
    ∷ on (λ c. c.verify_client)
    ∷ on (λ c. c.validation_depth)
    ∷ on (λ c. c.error_page)
    ∷ on (λ c. c.pass_cert_to_upstream)
    ∷ on (λ c. c.ocsp)
    ∷ on (λ c. c.ocsp_responder)
    ∷ on (λ c. c.ocsp_cache)
    ∷ [])

pub equal-IsEquiv : IsEquiv equal
unfolding equal
equal-IsEquiv = search (equiv_rules, AuthSslCert-equal-IsEquiv) depth 30
