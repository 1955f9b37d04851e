-- ===== src/Tests/Rendering.antt =====
-- Runs of the functions of the template and of the status.
use mathlib.Core.List.{Perm}
use ingress_nginx.Prelude.{
  some, pos, true, false, List, [], ◌∷◌, String, ◌≡◌, ◌↔◌, refl, All, string_eq,
}
use ingress_nginx.Annotations.RateLimit
use ingress_nginx.Annotations.Rewrite
use ingress_nginx.Maps.{contains}
use ingress_nginx.StringSets.{list_sets, add}
use ingress_nginx.Status.{LoadBalancerIngress, skips_update}
use ingress_nginx.Status.Skipped.{skips_update_iff}
use ingress_nginx.Types.Backend.{zero_backend}
use ingress_nginx.Types.Location.{Location, zero_location}
use ingress_nginx.Types.Server.{zero_server}
use ingress_nginx.Controller.Servers.{Site}
use ingress_nginx.Template.Listeners.{ListenConfig, build_http_listener, build_https_listener}
use ingress_nginx.Annotations.Mirror
use ingress_nginx.Template.Names.{
  build_server_name, is_location_in_location_list, proxy_set_header, build_mirror_locations,
}
use ingress_nginx.Template.Proxy.{build_proxy_pass, next_upstream_parts}
use ingress_nginx.Annotations.ModSecurity
use ingress_nginx.Template.CustomErrors.{build_custom_error_locations_per_server}
use ingress_nginx.Template.CustomErrors.Exact.{IsErrorTable, custom_errors_exact}
use ingress_nginx.Template.Modules
use ingress_nginx.Template.Modules.{
  should_load_mod_security_module, should_load_auth_digest_module, build_mod_security_for_location,
  build_opentracing_for_location, build_influxdb,
}
use ingress_nginx.Template.Modules.Loaded.{UsesLoaded, modules_are_loaded}
use ingress_nginx.Template.RateLimits.{build_rate_limit_zones, build_rate_limit, filter_rate_limits}

abbrev limited : Location
limited = record zero_location {
  rate_limit = record RateLimit.zero_config {
    id = "x";
    rps = record { name = "web_rps"; limit = pos 5; burst = pos 25; shared_size = pos 5 };
  };
}

abbrev sites : List Site
sites =
    record { server = zero_server; locations = limited ∷ zero_location ∷ [] }
    ∷ record { server = zero_server; locations = limited ∷ [] }
    ∷ []

zones :
    (build_rate_limit_zones list_sets sites
      ≡ "limit_req_zone $limit_x zone=web_rps:5m rate=5r/s;" ∷ [])
    × (build_rate_limit limited ≡ "limit_req zone=web_rps burst=25 nodelay;" ∷ [])
    × (filter_rate_limits list_sets sites ≡ limited.rate_limit ∷ [])
unfolding build_rate_limit_zones build_rate_limit filter_rate_limits add contains
zones = (refl, refl, refl)

abbrev config : ListenConfig
config = record {
  bind_address_ipv4 = [];
  bind_address_ipv6 = [];
  is_ipv6_enabled = true;
  is_ssl_passthrough_enabled = true;
  use_proxy_protocol = false;
  reuse_port = true;
  use_http2 = true;
  backlog_size = pos 511;
  http = pos 80;
  https = pos 443;
  ssl_proxy = pos 442;
}

listeners :
    (build_http_listener config "_"
      ≡ "listen 80 default_server reuseport backlog=511 ;\nlisten [::]:80 default_server reuseport backlog=511 ;")
    × (build_https_listener config "a.example"
        ≡ "listen 442 proxy_protocol  ssl http2 ;\nlisten [::]:442 proxy_protocol  ssl http2 ;")
unfolding build_http_listener build_https_listener
listeners = (refl, refl)

abbrev rewritten : Location
rewritten = record zero_location {
  path = "/a";
  backend = "web";
  backend_protocol = "GRPCS";
  rewrite = record Rewrite.zero_config { target = "/b" };
}

directives :
    (build_proxy_pass [] rewritten
      ≡ "\nrewrite \"(?i)/a\" /b break;\ngrpc_pass grpcs://upstream_balancer;")
    × (build_proxy_pass
          (record zero_backend { name = "web"; ssl_passthrough = true } ∷ [])
          (record zero_location { path = "/"; backend = "web"; backend_protocol = "HTTP" })
        ≡ "proxy_pass https://upstream_balancer;")
    × (next_upstream_parts ("error" ∷ "" ∷ "non_idempotent" ∷ "timeout" ∷ []) false
        ≡ "error" ∷ "timeout" ∷ "non_idempotent" ∷ [])
unfolding build_proxy_pass next_upstream_parts
directives = (refl, refl, refl)

abbrev point : String → LoadBalancerIngress
point ip = record { ip = ip; hostname = "" }

skips_update_iff_example :
    (skips_update
        (point "10.0.0.1" ∷ point "10.0.0.2" ∷ [])
        (point "10.0.0.2" ∷ point "10.0.0.1" ∷ [])
      ≡ true)
    ↔ Perm (point "10.0.0.2" ∷ point "10.0.0.1" ∷ []) (point "10.0.0.1" ∷ point "10.0.0.2" ∷ [])
skips_update_iff_example =
    skips_update_iff (point "10.0.0.1" ∷ point "10.0.0.2" ∷ [])
      (point "10.0.0.2" ∷ point "10.0.0.1" ∷ [])

skipped :
    skips_update
      (point "10.0.0.1" ∷ point "10.0.0.2" ∷ [])
      (point "10.0.0.2" ∷ point "10.0.0.1" ∷ [])
    ≡ true
unfolding skips_update
skipped = refl

-- The configuration loads no module for all locations.
abbrev plain : Modules.Config
plain = record {
  enable_modsecurity = false;
  enable_owasp_core_rules = false;
  enable_opentracing = false;
}

abbrev guarded : Location
guarded = record zero_location {
  mod_security = record ModSecurity.zero_config {
    enable = true;
    enable_set = true;
    snippet = "SecRuleEngine On";
  };
  opentracing = record { enabled = true; set = true };
  custom_http_errors = some (pos 503 ∷ pos 404 ∷ pos 503 ∷ []);
  default_backend_upstream_name = "web";
}

abbrev guarded_sites : List Site
guarded_sites = record { server = zero_server; locations = limited ∷ guarded ∷ [] } ∷ []

modules :
    (should_load_mod_security_module plain guarded_sites ≡ true)
    × (should_load_auth_digest_module guarded_sites ≡ false)
    × (build_mod_security_for_location plain guarded
        ≡ "modsecurity on;\nmodsecurity_rules '\nSecRuleEngine On\n';\nmodsecurity_rules_file /etc/nginx/modsecurity/modsecurity.conf;\n")
    × (build_opentracing_for_location false guarded
        ≡ "opentracing on;\nopentracing_propagate_context;")
    × (build_influxdb guarded.influxdb ≡ "")
unfolding should_load_mod_security_module should_load_auth_digest_module
    build_mod_security_for_location build_opentracing_for_location build_influxdb
modules = (refl, refl, refl, refl, refl)

modules_are_loaded_example :
    All (λ s. All (UsesLoaded plain guarded_sites) s.locations) guarded_sites
modules_are_loaded_example = modules_are_loaded plain guarded_sites

error_codes :
    build_custom_error_locations_per_server (guarded ∷ zero_location ∷ guarded ∷ [])
    ≡ record { upstream_name = ""; codes = [] }
      ∷ record { upstream_name = "web"; codes = pos 404 ∷ pos 503 ∷ [] }
      ∷ []
unfolding build_custom_error_locations_per_server
error_codes = refl

custom_errors_exact_example :
    IsErrorTable
      (guarded ∷ zero_location ∷ [])
      (build_custom_error_locations_per_server (guarded ∷ zero_location ∷ []))
custom_errors_exact_example = custom_errors_exact (guarded ∷ zero_location ∷ [])

abbrev mirrored : Location
mirrored = record zero_location {
  path = "/health/live";
  backend_protocol = "GRPC";
  mirror = record Mirror.zero_config { source = "/_mirror"; target = "http://m" };
}

server_names :
    (build_server_name "a.example" ≡ "a.example")
    × (build_server_name "*.a.example" ≡ "~^(?<subdomain>[\\w-]+)\\.a\\.example$")
    × (is_location_in_location_list mirrored "/login, /health ,," ≡ true)
    × (is_location_in_location_list mirrored " ," ≡ false)
    × (proxy_set_header mirrored ≡ "grpc_set_header")
    × (build_mirror_locations list_sets (mirrored ∷ zero_location ∷ mirrored ∷ [])
        ≡ "location = /_mirror {\ninternal;\nproxy_pass http://m;\n}\n\n")
unfolding build_server_name is_location_in_location_list proxy_set_header build_mirror_locations add
    contains
server_names = (refl, refl, refl, refl, refl, refl)
