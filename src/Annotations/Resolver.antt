-- ===== src/Annotations/Resolver.antt =====
-- internal/ingress/resolver/main.go: the files of a certificate authority and their comparison.
use ingress_nginx.Prelude.{Bool, IsEquiv, String, [], all_agree, equiv_rules, on, string_eq, ◌∷◌}

pub record AuthSslCert : Type 0 where
  pub secret : String
  pub ca_file_name : String
  pub ca_sha : String
  pub crl_file_name : String
  pub crl_sha : String
  pub pem_file_name : String

-- The zero value.
abbrev pub zero_auth_ssl_cert : AuthSslCert
zero_auth_ssl_cert = record {
  secret = "";
  ca_file_name = "";
  ca_sha = "";
  crl_file_name = "";
  crl_sha = "";
  pem_file_name = "";
}

unfoldable pub auth_ssl_cert_equal : AuthSslCert → AuthSslCert → Bool
auth_ssl_cert_equal = all_agree (
    on (λ c. c.secret)
    ∷ on (λ c. c.ca_file_name)
    ∷ on (λ c. c.ca_sha)
    ∷ on (λ c. c.crl_file_name)
    ∷ on (λ c. c.crl_sha)
    ∷ [])

pub AuthSslCert-equal-IsEquiv : IsEquiv auth_ssl_cert_equal
unfolding auth_ssl_cert_equal
AuthSslCert-equal-IsEquiv = search equiv_rules depth 30
