-- ===== src/Controller/Servers.antt =====
-- internal/ingress/controller/controller.go, createServers: the servers of the hosts of the rules. A
-- server and its locations are reached through the map only, so that they are values here; `none`
-- is a panic.
pub mod Configure
pub mod Rooted
pub mod Initial
pub mod Configured
pub mod Aliases
pub mod Created
use ingress_nginx.Prelude.{
  ℕ, ℤ, Bool, true, false, Option, none, some, List, [], ◌∷◌, String, ◌==◌, string_eq,
  if◌then◌else◌,
}
use ingress_nginx.Annotations.Log
use ingress_nginx.Annotations.Proxy
use ingress_nginx.Api.{Ref, Rule, prefix}
use ingress_nginx.Maps.{Map, get, put, member}
use ingress_nginx.Panics.{◌>>=◌}
use ingress_nginx.Types.Backend.{Backend}
use ingress_nginx.Types.Ingress.{Ingress}
use ingress_nginx.Types.Location.{Location, zero_location}
use ingress_nginx.Types.Server.{Server, zero_server}
use ingress_nginx.Controller.Annotated.{location_apply_annotations}
use ingress_nginx.Controller.Locations.{root_location}
use ingress_nginx.Controller.Upstreams.{name_for}
use ingress_nginx.Controller.Upstreams.Merging.{def_server_name}

-- A server with its locations; the field `locations` of the server is not used.
pub record Site : Type 0 where
  pub server : Server
  pub locations : List Location

-- The settings of the store that createServers reads: GetDefaultBackend, the flag
-- EnableAccessLogForDefaultBackend, and the result of getDefaultSSLCertificate.
pub record Settings : Type 0 where
  pub proxy_body_size : String
  pub proxy_connect_timeout : ℤ
  pub proxy_send_timeout : ℤ
  pub proxy_read_timeout : ℤ
  pub proxy_buffers_number : ℤ
  pub proxy_buffer_size : String
  pub proxy_cookie_domain : String
  pub proxy_cookie_path : String
  pub proxy_next_upstream : String
  pub proxy_next_upstream_timeout : ℤ
  pub proxy_next_upstream_tries : ℤ
  pub proxy_request_buffering : String
  pub proxy_redirect_from : String
  pub proxy_buffering : String
  pub proxy_http_version : String
  pub proxy_max_temp_file_size : String
  pub access_log : Bool
  pub default_ssl_certificate : Ref

-- `ngxProxy`, which leaves ProxyRedirectTo empty.
abbrev ngx_proxy : Settings → Proxy.Config
ngx_proxy b = record Proxy.zero_config {
  body_size = b.proxy_body_size;
  connect_timeout = b.proxy_connect_timeout;
  send_timeout = b.proxy_send_timeout;
  read_timeout = b.proxy_read_timeout;
  buffers_number = b.proxy_buffers_number;
  buffer_size = b.proxy_buffer_size;
  cookie_domain = b.proxy_cookie_domain;
  cookie_path = b.proxy_cookie_path;
  next_upstream = b.proxy_next_upstream;
  next_upstream_timeout = b.proxy_next_upstream_timeout;
  next_upstream_tries = b.proxy_next_upstream_tries;
  request_buffering = b.proxy_request_buffering;
  proxy_redirect_from = b.proxy_redirect_from;
  proxy_buffering = b.proxy_buffering;
  proxy_http_version = b.proxy_http_version;
  proxy_max_temp_file_size = b.proxy_max_temp_file_size;
}

-- The default server and its root location.
unfoldable pub default_site : Settings → Backend → Site
default_site settings du = record {
  server = record zero_server {
    hostname = def_server_name;
    ssl_cert = settings.default_ssl_certificate;
  };
  locations =
      record zero_location {
        path = root_location;
        path_type = some prefix;
        is_def_backend = true;
        backend = du.name;
        proxy = ngx_proxy settings;
        service = du.service;
        logs = record Log.zero_config { access = settings.access_log; rewrite = false };
      }
      ∷ [];
}

-- The default location under an ingress with a backend.
unfoldable pub catch_all_location : Ingress → Backend → Location → Location
unfolding location_apply_annotations
catch_all_location ing ups loc =
    let named : Location = record loc {
      backend = ups.name;
      service = ups.service;
      ingress = some ing;
    } in
    let taken : Location =
      record (location_apply_annotations (record named { is_def_backend = false })
        ing.parsed_annotations) { redirect = loc.redirect; rewrite = loc.rewrite } in
    elim ing.rules [ [] ↦ if loc.is_def_backend then taken else named | r ∷ rs ↦ named ]

unfoldable pub catch_all : Ingress → Backend → Map Site → Option (Map Site)
unfolding get put catch_all_location
catch_all ing ups m = elim (get def_server_name m) [
  | none ↦ none
  | some site ↦ elim site.locations [
    | [] ↦ none
    | loc ∷ ls ↦
        some
          (put def_server_name (record site { locations = catch_all_location ing ups loc ∷ ls }) m)
  ]
]

abbrev pub host_of : Rule → String
host_of r = if r.host == "" then def_server_name else r.host

-- A new server with its root location; `un` is the name of its default upstream.
unfoldable pub new_site : (String → ℕ) → Ingress → String → String → Site
unfolding location_apply_annotations
new_site fresh ing un host = record {
  server = record zero_server {
    hostname = host;
    ssl_passthrough = ing.parsed_annotations.ssl_passthrough;
    ssl_ciphers = ing.parsed_annotations.ssl_cipher.ssl_ciphers;
    ssl_prefer_server_ciphers = ing.parsed_annotations.ssl_cipher.ssl_prefer_server_ciphers;
  };
  locations =
      location_apply_annotations
        (record zero_location {
          path = root_location;
          path_type = some prefix;
          is_def_backend = true;
          backend = un;
          ingress = some ing;
          service = some (fresh host);
        })
        ing.parsed_annotations
      ∷ [];
}

unfoldable pub init_rule : (String → ℕ) → Ingress → String → Rule → Map Site → Map Site
unfolding get put new_site
init_rule fresh ing un r m =
    if member (host_of r) m then m else put (host_of r) (new_site fresh ing un (host_of r)) m

unfoldable pub init_rules : (String → ℕ) → Ingress → String → List Rule → Map Site → Map Site
unfolding init_rule
init_rules fresh ing un [] m = m
init_rules fresh ing un (r ∷ rs) m = init_rules fresh ing un rs (init_rule fresh ing un r m)

-- `backendUpstream`, where it is ok.
abbrev pub backend_upstream : Ingress → Map Backend → Option Backend
unfolding get
backend_upstream ing upstreams = elim ing.backend [
  | none ↦ none
  | some b ↦ get (name_for ing b) upstreams
]

-- The name of the default upstream, and the servers with the default location changed.
unfoldable pub adopt : Ingress → Backend → Option Backend → Map Site → Option (String × Map Site)
unfolding catch_all
adopt ing du none m = some (du.name, m)
adopt ing du (some ups) m = catch_all ing ups m >>= λ m'. some (ups.name, m')

-- One round of the first loop over the ingresses.
unfoldable pub init_ingress :
    (String → ℕ) → Map Backend → Backend → Ingress → Map Site → Option (Map Site)
unfolding get init_rules adopt
init_ingress fresh upstreams du ing m =
    if ing.parsed_annotations.canary.enabled
    then some m
    else adopt ing du (backend_upstream ing upstreams) m >>= λ p.
        some (init_rules fresh ing p.0 ing.rules p.1)

unfoldable pub init_ingresses :
    (String → ℕ) → Map Backend → Backend → List Ingress → Map Site → Option (Map Site)
unfolding init_ingress
init_ingresses fresh upstreams du [] m = some m
init_ingresses fresh upstreams du (ing ∷ ings) m =
    init_ingress fresh upstreams du ing m >>= init_ingresses fresh upstreams du ings
