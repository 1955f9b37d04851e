-- ===== src/Controller/Upstreams.antt =====
-- internal/ingress/controller/controller.go and util.go: the upstreams of the services that the
-- ingresses name. The keys of the map hold distinct objects, so that it holds their values here.
pub mod Made
pub mod Named
pub mod Complete
pub mod Merging
use ingress_nginx.Prelude.{
  ℕ, Bool, true, false, none, some, List, [], ◌∷◌, ◌++◌, elems, String, ◌==◌, string_eq,
  if◌then◌else◌,
}
use ingress_nginx.Api.{IngressBackend, IntOrString, HttpPath, Rule, port_string}
use ingress_nginx.Maps.{Map, get, put, member}
use ingress_nginx.Strings.{◌^^◌}
use ingress_nginx.Types.Backend.{
  Backend, zero_backend, zero_cookie_session_affinity, zero_session_affinity_config,
}
use ingress_nginx.Types.Ingress.{Ingress}
use ingress_nginx.Controller.Endpoints.{Names}
use ingress_nginx.Controller.Services.{StoreView, service_endpoints, service_cluster_endpoint}

abbrev pub def_upstream_name : String
def_upstream_name = "upstream-default-backend"

-- `upstreamName`
unfoldable pub upstream_name : String → String → IntOrString → String
upstream_name namespace service port = namespace ^^ ("-" ^^ (service ^^ ("-" ^^ port_string port)))

-- `newUpstream`; the address of its empty service is given.
unfoldable pub new_upstream : ℕ → String → Backend
new_upstream empty_service name = record zero_backend {
  name = name;
  endpoints = some [];
  service = some empty_service;
  session_affinity = record zero_session_affinity_config {
    cookie_session_affinity = record zero_cookie_session_affinity { locations = some [] };
  };
}

-- The name of the upstream of a backend that an ingress names.
abbrev pub name_for : Ingress → IngressBackend → String
name_for ing b = upstream_name ing.namespace b.service_name b.service_port

abbrev pub service_key : Ingress → IngressBackend → String
service_key ing b = ing.namespace ^^ ("/" ^^ b.service_name)

module _ (N : Names) (S : StoreView) where
  open S use {get_service, load_balancing}

  -- The fields that are set before the endpoints are looked up, alike for a default backend and a path.
  unfoldable pub shaped : Ingress → IngressBackend → Backend → Backend
  unfolding service_cluster_endpoint
  shaped ing backend u =
      let anns = ing.parsed_annotations in
      let hash_by = anns.upstream_hash_by in
      let hashed : Backend = record u {
        upstream_hash_by = record {
          upstream_hash_by = hash_by.upstream_hash_by;
          upstream_hash_by_subset = hash_by.upstream_hash_by_subset;
          upstream_hash_by_subset_size = hash_by.upstream_hash_by_subset_size;
        };
        load_balancing = if anns.load_balancing == "" then load_balancing else anns.load_balancing;
      } in
      let pointed : Backend =
        if anns.service_upstream
        then elim (service_cluster_endpoint N S (service_key ing backend) backend) [
          | none ↦ hashed
          | some e ↦ record hashed { endpoints = some (e ∷ []) }
        ]
        else hashed in
      if anns.canary.enabled
      then record pointed {
        no_server = true;
        traffic_shaping_policy = record {
          weight = anns.canary.weight;
          header = anns.canary.header;
          header_value = anns.canary.header_value;
          header_pattern = anns.canary.header_pattern;
          cookie = anns.canary.cookie;
        };
      }
      else pointed

  abbrev has_no_endpoints : Backend → Bool
  has_no_endpoints u = elim (elems u.endpoints) [ [] ↦ true | e ∷ es ↦ false ]

  -- The upstream of a default backend.
  unfoldable pub default_upstream : ℕ → Ingress → IngressBackend → Backend
  unfolding shaped service_endpoints new_upstream
  default_upstream empty_service ing backend =
      let u = shaped ing backend (new_upstream empty_service (name_for ing backend)) in
      let filled : Backend =
        if has_no_endpoints u
        then elim (service_endpoints N S (service_key ing backend)
            (port_string backend.service_port)) [
              | none ↦ u
              | some endps ↦ record u { endpoints = some (elems u.endpoints ++ elems endps) }
            ]
        else u in
      record filled { service = get_service (service_key ing backend) }

  -- The service of an upstream of a path, unless the store has none.
  abbrev with_service : String → Backend → Backend
  with_service svc_key u = elim (get_service svc_key) [
    | none ↦ u
    | some a ↦ record u { service = some a }
  ]

  -- The upstream of a path.
  unfoldable pub path_upstream : ℕ → Ingress → IngressBackend → Backend
  unfolding shaped service_endpoints new_upstream
  path_upstream empty_service ing backend =
      let new : Backend = record (new_upstream empty_service (name_for ing backend)) {
        port = backend.service_port;
      } in
      let u = shaped ing backend new in
      if has_no_endpoints u
      then elim (service_endpoints N S (service_key ing backend)
          (port_string backend.service_port)) [
            | none ↦ u
            | some endp ↦ with_service (service_key ing backend) (record u { endpoints = endp })
          ]
      else with_service (service_key ing backend) u

  -- The address of the empty service of each new upstream.
  module _ (fresh : String → ℕ) where
    abbrev pub add_default : Ingress → Map Backend → Map Backend
    add_default ing m = elim ing.backend [
      | none ↦ m
      | some b ↦ put (name_for ing b) (default_upstream (fresh (name_for ing b)) ing b) m
    ]

    unfoldable pub add_paths : Ingress → List HttpPath → Map Backend → Map Backend
    unfolding get put path_upstream
    add_paths ing [] m = m
    add_paths ing (p ∷ ps) m = add_paths ing ps (
        if member (name_for ing p.backend) m
        then m
        else put (name_for ing p.backend)
            (path_upstream (fresh (name_for ing p.backend)) ing p.backend) m)

    unfoldable pub add_rules : Ingress → List Rule → Map Backend → Map Backend
    unfolding add_paths
    add_rules ing [] m = m
    add_rules ing (r ∷ rs) m = add_rules ing rs (add_paths ing (elems r.http) m)

    unfoldable pub add_ingresses : List Ingress → Map Backend → Map Backend
    unfolding add_rules default_upstream put
    add_ingresses [] m = m
    add_ingresses (ing ∷ ings) m = add_ingresses ings (add_rules ing ing.rules (add_default ing m))

    -- `createUpstreams`
    unfoldable pub create_upstreams : List Ingress → Backend → Map Backend
    unfolding add_ingresses
    create_upstreams ings du = add_ingresses ings ((def_upstream_name, du) ∷ [])
