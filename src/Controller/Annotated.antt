-- ===== src/Controller/Annotated.antt =====
-- internal/ingress/controller/controller.go: the annotations of an ingress on one of its locations.
use ingress_nginx.Types.Annotations.{Annotations}
use ingress_nginx.Types.Location.{Location}
use ingress_nginx.Controller.Upstreams.{def_upstream_name}

-- `locationApplyAnnotations`: the location after the call.
unfoldable pub location_apply_annotations : Location → Annotations → Location
location_apply_annotations loc anns = record loc {
  basic_digest_auth = anns.basic_digest_auth;
  client_body_buffer_size = anns.client_body_buffer_size;
  configuration_snippet = anns.configuration_snippet;
  cors_config = anns.cors_config;
  external_auth = anns.external_auth;
  enable_global_auth = anns.enable_global_auth;
  http2_push_preload = anns.http2_push_preload;
  opentracing = anns.opentracing;
  proxy = anns.proxy;
  proxy_ssl = anns.proxy_ssl;
  rate_limit = anns.rate_limit;
  global_rate_limit = anns.global_rate_limit;
  redirect = anns.redirect;
  rewrite = anns.rewrite;
  upstream_vhost = anns.upstream_vhost;
  whitelist = anns.whitelist;
  denied = anns.denied;
  x_forwarded_prefix = anns.x_forwarded_prefix;
  use_port_in_redirects = anns.use_port_in_redirects;
  connection = anns.connection;
  logs = anns.logs;
  influxdb = anns.influxdb;
  default_backend = anns.default_backend;
  backend_protocol = anns.backend_protocol;
  fastcgi = anns.fastcgi;
  custom_http_errors = anns.custom_http_errors;
  mod_security = anns.mod_security;
  satisfy = anns.satisfy;
  mirror = anns.mirror;
  default_backend_upstream_name = def_upstream_name;
}
