-- ===== src/Types/Location.antt =====
-- internal/ingress/types.go: `Location`.
use ingress_nginx.Prelude.{Bool, Option, Slice, String, ℤ, none, false}
use ingress_nginx.Api.{Ref, IntOrString, zero_int_or_string, PathType}
use ingress_nginx.Annotations.Auth
use ingress_nginx.Annotations.AuthReq
use ingress_nginx.Annotations.Connection
use ingress_nginx.Annotations.Cors
use ingress_nginx.Annotations.FastCgi
use ingress_nginx.Annotations.GlobalRateLimit
use ingress_nginx.Annotations.InfluxDb
use ingress_nginx.Annotations.IpWhitelist
use ingress_nginx.Annotations.Log
use ingress_nginx.Annotations.Mirror
use ingress_nginx.Annotations.ModSecurity
use ingress_nginx.Annotations.OpenTracing
use ingress_nginx.Annotations.Proxy
use ingress_nginx.Annotations.ProxySsl
use ingress_nginx.Annotations.RateLimit
use ingress_nginx.Annotations.Redirect
use ingress_nginx.Annotations.Rewrite
use ingress_nginx.Types.Ingress.{Ingress}

pub record Location : Type 0 where
  pub path : String
  pub path_type : Option PathType
  pub is_def_backend : Bool
  pub ingress : Option Ingress
  pub ingress_path : String
  pub backend : String
  pub service : Ref
  pub port : IntOrString
  pub upstream_vhost : String
  pub basic_digest_auth : Auth.Config
  pub denied : Ref
  pub cors_config : Cors.Config
  pub external_auth : AuthReq.Config
  pub enable_global_auth : Bool
  pub http2_push_preload : Bool
  pub rate_limit : RateLimit.Config
  pub global_rate_limit : GlobalRateLimit.Config
  pub redirect : Redirect.Config
  pub rewrite : Rewrite.Config
  pub whitelist : IpWhitelist.SourceRange
  pub proxy : Proxy.Config
  pub proxy_ssl : ProxySsl.Config
  pub use_port_in_redirects : Bool
  pub configuration_snippet : String
  pub connection : Connection.Config
  pub client_body_buffer_size : String
  pub default_backend : Ref
  pub default_backend_upstream_name : String
  pub x_forwarded_prefix : String
  pub logs : Log.Config
  pub influxdb : InfluxDb.Config
  pub backend_protocol : String
  pub fastcgi : FastCgi.Config
  pub custom_http_errors : Slice ℤ
  pub mod_security : ModSecurity.Config
  pub satisfy : String
  pub mirror : Mirror.Config
  pub opentracing : OpenTracing.Config

-- The zero value.
abbrev pub zero_location : Location
zero_location = record {
  path = "";
  path_type = none;
  is_def_backend = false;
  ingress = none;
  ingress_path = "";
  backend = "";
  service = none;
  port = zero_int_or_string;
  upstream_vhost = "";
  basic_digest_auth = Auth.zero_config;
  denied = none;
  cors_config = Cors.zero_config;
  external_auth = AuthReq.zero_config;
  enable_global_auth = false;
  http2_push_preload = false;
  rate_limit = RateLimit.zero_config;
  global_rate_limit = GlobalRateLimit.zero_config;
  redirect = Redirect.zero_config;
  rewrite = Rewrite.zero_config;
  whitelist = IpWhitelist.zero_source_range;
  proxy = Proxy.zero_config;
  proxy_ssl = ProxySsl.zero_config;
  use_port_in_redirects = false;
  configuration_snippet = "";
  connection = Connection.zero_config;
  client_body_buffer_size = "";
  default_backend = none;
  default_backend_upstream_name = "";
  x_forwarded_prefix = "";
  logs = Log.zero_config;
  influxdb = InfluxDb.zero_config;
  backend_protocol = "";
  fastcgi = FastCgi.zero_config;
  custom_http_errors = none;
  mod_security = ModSecurity.zero_config;
  satisfy = "";
  mirror = Mirror.zero_config;
  opentracing = OpenTracing.zero_config;
}
