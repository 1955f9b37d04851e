-- ===== src/Controller/BackendServers/Result.antt =====
-- internal/ingress/controller/controller.go: getDefaultUpstream, getBackendServers as a whole, and the
-- part of getConfiguration on servers.
use ingress_nginx.Prelude.{
  ℕ, Bool, not, Option, none, some, List, [], ◌∷◌, ◌++◌, elems, ltb, map, String, ◌==◌, string_eq,
  if◌then◌else◌,
}
use Prim.Native.String
use ingress_nginx.Maps.{Map}
use ingress_nginx.Panics.{◌>>=◌}
use ingress_nginx.Sorting.{slice_stable, text_less}
use ingress_nginx.StringSets.{StringSets}
use ingress_nginx.Types.Backend.{Backend, Endpoint, zero_backend}
use ingress_nginx.Types.Configuration.{SslPassthroughBackend}
use ingress_nginx.Types.Ingress.{Ingress}
use ingress_nginx.Types.Location.{Location}
use ingress_nginx.Controller.Certificates.{CertificateView}
use ingress_nginx.Controller.BackendServers.{place_ingresses, merge_all}
use ingress_nginx.Controller.BackendServers.CustomDefaults.{visit_upstreams}
use ingress_nginx.Controller.Endpoints.{Names, get_endpoints}
use ingress_nginx.Controller.Locations.{root_location, update_server_locations}
use ingress_nginx.Controller.Servers.{Site, Settings}
use ingress_nginx.Controller.Servers.Configure.{create_servers}
use ingress_nginx.Controller.Services.{StoreView}
use ingress_nginx.Controller.Upstreams.{create_upstreams, def_upstream_name}

module _ (N : Names) (S : StoreView) where
  open S use {get_service, service_at, get_service_endpoints}

  -- `getDefaultUpstream`, for the flag DefaultService and the result of DefaultEndpoint; `none` is the
  -- panic for a service without ports.
  unfoldable pub get_default_upstream : String → Endpoint → Option Backend
  unfolding get_endpoints
  get_default_upstream default_service default_endpoint =
      let upstream : Backend = record zero_backend { name = def_upstream_name } in
      let fallback : Option Backend =
        some (record upstream { endpoints = some (default_endpoint ∷ []) }) in
      if default_service == "" then fallback else elim (get_service default_service) [
        | none ↦ fallback
        | some a ↦ elim (service_at a).ports [
          | [] ↦ none
          | sp ∷ sps ↦
              elim (get_endpoints N (some (service_at a)) (some sp) "TCP" get_service_endpoints) [
                | [] ↦
                    some (record upstream {
                      service = some a;
                      endpoints = some (default_endpoint ∷ []);
                    })
                | e ∷ es ↦ some (record upstream { service = some a; endpoints = some (e ∷ es) })
              ]
        ]
      ]

-- The two sorts of the locations of a server.
unfoldable pub sort_locations : List Location → List Location
unfolding slice_stable text_less
sort_locations ls =
    slice_stable (λ a b. ltb (String.len b.path) (String.len a.path))
      (slice_stable (λ a b. text_less b.path a.path) ls)

abbrev pub sorted_site : Site → Site
unfolding sort_locations
sorted_site s = record s { locations = sort_locations s.locations }

abbrev pub sites_of : Map Site → List Site
sites_of [] = []
sites_of ((k, s) ∷ m) = s ∷ sites_of m

-- The sorts at the end of the function.
unfoldable pub sorted_result : List Backend × Map Site → List Backend × List Site
unfolding slice_stable sort_locations
sorted_result (upstreams, servers) = (
  slice_stable (λ a b. text_less a.name b.name) upstreams,
  slice_stable (λ a b. text_less a.server.hostname b.server.hostname)
      (map sorted_site (sites_of servers)),
)

-- `getBackendServers`, for an upstream `du` that getDefaultUpstream returns
unfoldable pub get_backend_servers :
    StringSets
    → Names
    → StoreView
    → CertificateView
    → Settings
    → Bool
    → (String → ℕ)
    → Backend
    → List Ingress
    → Option (List Backend × List Site)
unfolding create_upstreams create_servers place_ingresses merge_all visit_upstreams sorted_result
get_backend_servers Sets N S C settings location_only fresh du ings =
    let upstreams = create_upstreams N S fresh ings du in
    create_servers Sets C settings fresh ings upstreams du >>= λ servers.
    place_ingresses location_only ings (record { servers = servers; upstreams = upstreams })
    >>= λ placed. merge_all ings placed >>= λ merged.
        some (sorted_result (visit_upstreams N S merged.upstreams merged.servers))

-- The part of getConfiguration for one server.
unfoldable pub add_aliases : (Sets : StringSets) → List String → Sets.Set → Sets.Set
add_aliases Sets [] hosts = hosts
add_aliases Sets (a ∷ as') hosts =
    add_aliases Sets as' (if Sets.has hosts a then hosts else Sets.insert a hosts)

-- The passthrough backend of the first root location.
unfoldable pub passthrough_of : String → List Location → List SslPassthroughBackend
passthrough_of hostname [] = []
passthrough_of hostname (l ∷ ls) =
    let later = passthrough_of hostname ls in
    if not (l.path == root_location)
    then later
    else record { backend = l.backend; hostname = hostname; service = l.service; port = l.port }
      ∷ []

-- `hosts`, `servers` and `passUpstreams`
pub record Gathered (Sets : StringSets) : Type 0 where
  pub hosts : Sets.Set
  pub sites : List Site
  pub passthrough : List SslPassthroughBackend

unfoldable pub gather : (Sets : StringSets) → Gathered Sets → List Site → Option (Gathered Sets)
unfolding add_aliases passthrough_of update_server_locations
gather Sets g [] = some g
gather Sets g (s ∷ ss) = update_server_locations s.locations >>= λ locations.
    gather Sets
      (record {
        hosts = add_aliases Sets (s.server.hostname ∷ elems s.server.aliases) g.hosts;
        sites = g.sites ++ (record s { locations = locations } ∷ []);
        passthrough =
            if s.server.ssl_passthrough
            then g.passthrough ++ passthrough_of s.server.hostname locations
            else g.passthrough;
      })
      ss
