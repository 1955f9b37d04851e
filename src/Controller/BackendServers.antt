-- ===== src/Controller/BackendServers.antt =====
-- internal/ingress/controller/controller.go, getBackendServers: the loop over the ingresses, and the
-- merge of the canaries. Servers and upstreams are reached through their maps only, so that they are
-- values here; `none` is a panic.
pub mod Affinity
pub mod Progress
pub mod Serving
pub mod EveryPath
pub mod Complete
pub mod CustomDefaults
pub mod Result
pub mod Sorted
use ingress_nginx.Prelude.{
  Bool, true, false, not, ◌&&◌, ◌||◌, Option, none, some, List, [], ◌∷◌, Slice, elems, length, ltb,
  String, ◌==◌, string_eq, if◌then◌else◌,
}
use ingress_nginx.Api.{HttpPath, Rule}
use ingress_nginx.Maps.{Map, get, put, member}
use ingress_nginx.Panics.{◌>>=◌}
use ingress_nginx.Types.Annotations.{Annotations}
use ingress_nginx.Types.Backend.{Backend}
use ingress_nginx.Types.Ingress.{Ingress}
use ingress_nginx.Types.Location.{Location}
use ingress_nginx.Types.Server.{Server}
use ingress_nginx.Controller.BackendServers.Affinity.{with_affinity}
use ingress_nginx.Controller.Placing.{place}
use ingress_nginx.Controller.Servers.{Site, host_of}
use ingress_nginx.Controller.Servers.Configure.{or_set}
use ingress_nginx.Controller.Upstreams.{name_for}
use ingress_nginx.Controller.Upstreams.Merging.{def_server_name, merge_alternative_backends}

-- `servers` and `upstreams`.
pub record Stage : Type 0 where
  pub servers : Map Site
  pub upstreams : Map Backend

-- The server with the settings for certificates of clients and upstreams.
unfoldable pub authenticated : Bool → Annotations → Server → Server
authenticated location_only anns s = record s {
  auth_tls_error = or_set s.auth_tls_error anns.certificate_auth.auth_tls_error;
  certificate_auth =
      if s.certificate_auth.auth_ssl_cert.ca_file_name == ""
      then anns.certificate_auth
      else s.certificate_auth;
  proxy_ssl =
      if not location_only && s.proxy_ssl.auth_ssl_cert.ca_file_name == ""
      then anns.proxy_ssl
      else s.proxy_ssl;
}

-- The server that takes the paths of a path's rule, after one of them is placed.
unfoldable pub placed_site : Ingress → HttpPath → Backend → Site → Site
unfolding place
placed_site ing p ups site =
    let placed = place ing p ups site.locations in
    record {
      server = record site.server {
        redirect_from_to_www = placed.from_to_www || site.server.redirect_from_to_www;
      };
      locations = placed.locations;
    }

-- The body of the loop over the paths: `key` is the server, `host` the host of the rule.
unfoldable pub place_path : Ingress → String → String → HttpPath → Stage → Option Stage
unfolding get put placed_site with_affinity
place_path ing host key p st = get (name_for ing p.backend) st.upstreams >>= λ ups.
    if ups.no_server
    then some st
    else (get key st.servers >>= λ site.
        with_affinity ing.parsed_annotations.session_affinity host site.server.aliases p.path ups
        >>= λ next. some (record {
          servers = put key (placed_site ing p ups site) st.servers;
          upstreams = put (name_for ing p.backend) next st.upstreams;
        }))

unfoldable pub place_paths : Ingress → String → String → List HttpPath → Stage → Option Stage
unfolding place_path
place_paths ing host key [] st = some st
place_paths ing host key (p ∷ ps) st = place_path ing host key p st >>= place_paths ing host key ps

-- The name of the server of a host.
abbrev pub server_key : String → Map Site → String
server_key host servers = if member host servers then host else def_server_name

-- The paths of a rule that has a server, once that is authenticated.
unfoldable pub place_http : Bool → Ingress → String → String → Slice HttpPath → Stage → Option Stage
unfolding get put authenticated place_paths
place_http location_only ing host key http st = get key st.servers >>= λ site.
    place_paths ing host key (elems http) (record st {
      servers =
          put key
            (record site {
              server = authenticated location_only ing.parsed_annotations site.server;
            })
            st.servers;
    })

abbrev pub is_nil {ℓ} : {A : Type ℓ} → Slice A → Bool
is_nil none = true
is_nil (some xs) = false

-- The body of the loop over the rules.
unfoldable pub place_rule : Bool → Ingress → Rule → Stage → Option Stage
unfolding place_http get
place_rule location_only ing r st =
    if is_nil r.http && not (host_of r == def_server_name)
    then some st
    else place_http location_only ing (host_of r) (server_key (host_of r) st.servers) r.http st

unfoldable pub place_rules : Bool → Ingress → List Rule → Stage → Option Stage
unfolding place_rule
place_rules location_only ing [] st = some st
place_rules location_only ing (r ∷ rs) st =
    place_rule location_only ing r st >>= place_rules location_only ing rs

unfoldable pub place_ingresses : Bool → List Ingress → Stage → Option Stage
unfolding place_rules
place_ingresses location_only [] st = some st
place_ingresses location_only (ing ∷ ings) st =
    place_rules location_only ing ing.rules st >>= place_ingresses location_only ings

-- `canaryIngresses`
unfoldable pub canary_ingresses : List Ingress → List Ingress
canary_ingresses [] = []
canary_ingresses (ing ∷ ings) =
    let rest = canary_ingresses ings in
    if ing.parsed_annotations.canary.enabled then ing ∷ rest else rest

unfoldable pub non_canary_ingress_exists : List Ingress → List Ingress → Bool
non_canary_ingress_exists ings canaries = ltb (length canaries) (length ings)

abbrev pub locations_of : Map Site → Map (List Location)
locations_of [] = []
locations_of ((k, s) ∷ m) = (k, s.locations) ∷ locations_of m

unfoldable pub merge_canaries :
    List Ingress → Map (List Location) → Map Backend → Option (Map Backend)
unfolding merge_alternative_backends
merge_canaries [] locations upstreams = some upstreams
merge_canaries (ing ∷ ings) locations upstreams =
    merge_alternative_backends ing upstreams locations >>= merge_canaries ings locations

unfoldable pub merge_all : List Ingress → Stage → Option Stage
unfolding canary_ingresses non_canary_ingress_exists merge_canaries
merge_all ings st =
    if non_canary_ingress_exists ings (canary_ingresses ings)
    then (merge_canaries (canary_ingresses ings) (locations_of st.servers) st.upstreams
        >>= λ upstreams. some (record st { upstreams = upstreams }))
    else some st
