-- ===== src/Types/Server.antt =====
-- internal/ingress/sslcert.go and internal/ingress/types.go: `SSLCert` and `Server`. The parsed
-- certificates (crypto/x509) are left out.
use ingress_nginx.Prelude.{Bool, Slice, String, ℤ, pos, none, false}
use ingress_nginx.Api.{Ref}
use ingress_nginx.Annotations.AuthTls
use ingress_nginx.Annotations.ProxySsl

pub record SslCert : Type 0 where
  pub name : String
  pub namespace : String
  pub ca_file_name : String
  pub ca_sha : String
  pub crl_file_name : String
  pub crl_sha : String
  pub pem_file_name : String
  pub pem_sha : String
  pub cn : Slice String
  pub expire_time : ℤ
  pub pem_cert_key : String
  pub uid : String

-- The zero value.
abbrev pub zero_ssl_cert : SslCert
zero_ssl_cert = record {
  name = "";
  namespace = "";
  ca_file_name = "";
  ca_sha = "";
  crl_file_name = "";
  crl_sha = "";
  pem_file_name = "";
  pem_sha = "";
  cn = none;
  expire_time = pos 0;
  pem_cert_key = "";
  uid = "";
}

pub record Server : Type 0 where
  pub hostname : String
  pub ssl_passthrough : Bool
  pub ssl_cert : Ref
  pub locations : Slice Ref
  pub aliases : Slice String
  pub redirect_from_to_www : Bool
  pub certificate_auth : AuthTls.Config
  pub proxy_ssl : ProxySsl.Config
  pub server_snippet : String
  pub ssl_ciphers : String
  pub ssl_prefer_server_ciphers : String
  pub auth_tls_error : String

-- The zero value.
abbrev pub zero_server : Server
zero_server = record {
  hostname = "";
  ssl_passthrough = false;
  ssl_cert = none;
  locations = none;
  aliases = none;
  redirect_from_to_www = false;
  certificate_auth = AuthTls.zero_config;
  proxy_ssl = ProxySsl.zero_config;
  server_snippet = "";
  ssl_ciphers = "";
  ssl_prefer_server_ciphers = "";
  auth_tls_error = "";
}
