-- ===== src/Controller/BackendServers/CustomDefaults.antt =====
-- internal/ingress/controller/controller.go, getBackendServers: the upstreams of the default backends
-- that locations name.
use ingress_nginx.Prelude.{
  Bool, true, false, not, ◌&&◌, ◌||◌, none, some, List, [], ◌∷◌, ◌++◌, ◌==◌, string_eq,
  if◌then◌else◌,
}
use ingress_nginx.Api.{Service}
use ingress_nginx.Maps.{Map}
use ingress_nginx.Strings.{◌^^◌}
use ingress_nginx.Types.Backend.{Backend, Endpoint}
use ingress_nginx.Types.Location.{Location}
use ingress_nginx.Types.Server.{Server}
use ingress_nginx.Controller.Endpoints.{Names, get_endpoints}
use ingress_nginx.Controller.Locations.{root_location}
use ingress_nginx.Controller.Servers.{Site}
use ingress_nginx.Controller.Servers.Configure.{is_empty}
use ingress_nginx.Controller.Services.{StoreView}
use ingress_nginx.Controller.Upstreams.{def_upstream_name}

-- What a loop does: the values after it, the upstreams that it appends, and whether it appends to
-- `isHTTPSfrom`.
pub record Visited {ℓ} (A : Type ℓ) : Type ℓ where
  pub value : A
  pub added : List Backend
  pub https : Bool

-- `shouldCreateUpstreamForLocationDefaultBackend`
unfoldable pub should_create : Backend → Location → Bool
should_create ups loc =
    ups.name == loc.backend
    && (is_empty ups.endpoints || not (is_empty loc.custom_http_errors))
    && (elim loc.default_backend [ none ↦ false | some a ↦ true ])

module _ (N : Names) (S : StoreView) where
  open S use {service_at, get_service_endpoints}

  -- The rest of the loop over the locations, which comes to it only for a custom default backend.
  abbrev pub check_passthrough : Server → Visited Location → Visited Location
  check_passthrough server v = record v {
    https =
        server.ssl_passthrough
        && v.value.path == root_location
        && not (v.value.backend == def_upstream_name);
  }

  -- The location and upstream of a default backend with the endpoints `endps`.
  unfoldable pub with_endpoints : Backend → Service → List Endpoint → Location → Visited Location
  with_endpoints ups svc endps loc = elim endps [
    | [] ↦ record { value = loc; added = []; https = false }
    | e ∷ es ↦
        let name = "custom-default-backend-" ^^ svc.name in
        record {
          value = record loc {
            default_backend_upstream_name = name;
            backend = if is_empty ups.endpoints then name else loc.backend;
          };
          added = record ups { name = name; endpoints = some (e ∷ es) } ∷ [];
          https = false;
        }
  ]

  -- The body of the loop over the locations.
  unfoldable pub visit_location : Backend → Server → Location → Visited Location
  unfolding should_create with_endpoints get_endpoints
  visit_location ups server loc =
      let kept : Visited Location = record { value = loc; added = []; https = false } in
      if not (should_create ups loc) then kept else elim loc.default_backend [
        | none ↦ kept
        | some a ↦ elim (service_at a).ports [
          | [] ↦ kept
          | sp ∷ sps ↦ check_passthrough server (
              with_endpoints ups (service_at a)
                (get_endpoints N (some (service_at a)) (some sp) "TCP" get_service_endpoints) loc)
        ]
      ]

  unfoldable pub visit_locations : Backend → Server → List Location → Visited (List Location)
  unfolding visit_location
  visit_locations ups server [] = record { value = []; added = []; https = false }
  visit_locations ups server (l ∷ ls) =
      let first = visit_location ups server l in
      let later = visit_locations ups server ls in
      record {
        value = first.value ∷ later.value;
        added = first.added ++ later.added;
        https = first.https || later.https;
      }

  unfoldable pub visit_servers : Backend → Map Site → Visited (Map Site)
  unfolding visit_locations
  visit_servers ups [] = record { value = []; added = []; https = false }
  visit_servers ups ((k, s) ∷ m) =
      let first = visit_locations ups s.server s.locations in
      let later = visit_servers ups m in
      record {
        value = (k, record s { locations = first.value }) ∷ later.value;
        added = first.added ++ later.added;
        https = first.https || later.https;
      }

  -- The loop over the upstreams: `aUpstreams` and the servers.
  unfoldable pub visit_upstreams : Map Backend → Map Site → List Backend × Map Site
  unfolding visit_servers
  visit_upstreams [] servers = ([], servers)
  visit_upstreams ((k, ups) ∷ m) servers =
      let seen = visit_servers ups servers in
      let later =
        visit_upstreams m (if ups.name == def_upstream_name then servers else seen.value) in
      if ups.name == def_upstream_name then (ups ∷ later.0, later.1) else (
        record ups { ssl_passthrough = seen.https || ups.ssl_passthrough }
            ∷ (seen.added ++ later.0),
        later.1,
      )
