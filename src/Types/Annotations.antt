-- ===== src/Types/Annotations.antt =====
-- internal/ingress/annotations/annotations.go: the annotations of one ingress, after their extraction.
-- `SecureUpstream` is left out: nothing outside its own package reads it.
use ingress_nginx.Prelude.{Bool, Slice, String, ℤ, none, false}
use ingress_nginx.Api.{Ref}
use ingress_nginx.Annotations.Auth
use ingress_nginx.Annotations.AuthReq
use ingress_nginx.Annotations.AuthTls
use ingress_nginx.Annotations.Canary
use ingress_nginx.Annotations.Connection
use ingress_nginx.Annotations.Cors
use ingress_nginx.Annotations.FastCgi
use ingress_nginx.Annotations.GlobalRateLimit
use ingress_nginx.Annotations.InfluxDb
use ingress_nginx.Annotations.IpWhitelist
use ingress_nginx.Annotations.Log
use ingress_nginx.Annotations.Mirror
use ingress_nginx.Annotations.ModSecurity
use ingress_nginx.Annotations.OpenTracing
use ingress_nginx.Annotations.Proxy
use ingress_nginx.Annotations.ProxySsl
use ingress_nginx.Annotations.RateLimit
use ingress_nginx.Annotations.Redirect
use ingress_nginx.Annotations.Rewrite
use ingress_nginx.Annotations.SessionAffinity
use ingress_nginx.Annotations.SslCipher
use ingress_nginx.Annotations.UpstreamHashBy

pub record Annotations : Type 0 where
  pub backend_protocol : String
  pub aliases : Slice String
  pub basic_digest_auth : Auth.Config
  pub canary : Canary.Config
  pub certificate_auth : AuthTls.Config
  pub client_body_buffer_size : String
  pub configuration_snippet : String
  pub connection : Connection.Config
  pub cors_config : Cors.Config
  pub custom_http_errors : Slice ℤ
  pub default_backend : Ref
  pub fastcgi : FastCgi.Config
  pub denied : Ref
  pub external_auth : AuthReq.Config
  pub enable_global_auth : Bool
  pub http2_push_preload : Bool
  pub opentracing : OpenTracing.Config
  pub proxy : Proxy.Config
  pub proxy_ssl : ProxySsl.Config
  pub rate_limit : RateLimit.Config
  pub global_rate_limit : GlobalRateLimit.Config
  pub redirect : Redirect.Config
  pub rewrite : Rewrite.Config
  pub satisfy : String
  pub server_snippet : String
  pub service_upstream : Bool
  pub session_affinity : SessionAffinity.Config
  pub ssl_passthrough : Bool
  pub use_port_in_redirects : Bool
  pub upstream_hash_by : UpstreamHashBy.Config
  pub load_balancing : String
  pub upstream_vhost : String
  pub whitelist : IpWhitelist.SourceRange
  pub x_forwarded_prefix : String
  pub ssl_cipher : SslCipher.Config
  pub logs : Log.Config
  pub influxdb : InfluxDb.Config
  pub mod_security : ModSecurity.Config
  pub mirror : Mirror.Config

-- The zero value.
abbrev pub zero_annotations : Annotations
zero_annotations = record {
  backend_protocol = "";
  aliases = none;
  basic_digest_auth = Auth.zero_config;
  canary = Canary.zero_config;
  certificate_auth = AuthTls.zero_config;
  client_body_buffer_size = "";
  configuration_snippet = "";
  connection = Connection.zero_config;
  cors_config = Cors.zero_config;
  custom_http_errors = none;
  default_backend = none;
  fastcgi = FastCgi.zero_config;
  denied = none;
  external_auth = AuthReq.zero_config;
  enable_global_auth = false;
  http2_push_preload = false;
  opentracing = OpenTracing.zero_config;
  proxy = Proxy.zero_config;
  proxy_ssl = ProxySsl.zero_config;
  rate_limit = RateLimit.zero_config;
  global_rate_limit = GlobalRateLimit.zero_config;
  redirect = Redirect.zero_config;
  rewrite = Rewrite.zero_config;
  satisfy = "";
  server_snippet = "";
  service_upstream = false;
  session_affinity = SessionAffinity.zero_config;
  ssl_passthrough = false;
  use_port_in_redirects = false;
  upstream_hash_by = UpstreamHashBy.zero_config;
  load_balancing = "";
  upstream_vhost = "";
  whitelist = IpWhitelist.zero_source_range;
  x_forwarded_prefix = "";
  ssl_cipher = SslCipher.zero_config;
  logs = Log.zero_config;
  influxdb = InfluxDb.zero_config;
  mod_security = ModSecurity.zero_config;
  mirror = Mirror.zero_config;
}
