-- ===== src/Tests/Building.antt =====
-- Runs of the servers with their locations.
use mathlib.Core.List.{Perm}
use ingress_nginx.Prelude.{
  false, none, some, List, [], ◌∷◌, ◌≡◌, refl, String, string_eq, pos, All, map,
}
use ingress_nginx.Api.{HttpPath, prefix, zero_service, port_string}
use ingress_nginx.Maps.{Map}
use ingress_nginx.StringSets.{list_sets}
use ingress_nginx.Sorting.Laws.{Pairs}
use ingress_nginx.Types.Ingress.{Ingress}
use ingress_nginx.Types.Location.{Location, zero_location}
use ingress_nginx.Controller.BackendServers.{Stage, place_ingresses}
use ingress_nginx.Controller.BackendServers.Complete.{begun, AreServed, every_path_is_placed}
use ingress_nginx.Controller.BackendServers.Result.{sort_locations}
use ingress_nginx.Controller.BackendServers.Sorted.{MayPrecede, sort_locations_lem}
use ingress_nginx.Controller.Services.{StoreView}
use ingress_nginx.Controller.Servers.{Site}
use ingress_nginx.Controller.Servers.Configure.{create_servers}
use ingress_nginx.Controller.Upstreams.{create_upstreams, upstream_name}
use ingress_nginx.Tests.Backends.{names}
use ingress_nginx.Tests.Servers.{certificates, settings, web, unknown}

abbrev store : StoreView
store = record {
  get_service = λ k. some 0;
  service_at = λ a. zero_service;
  get_service_endpoints = λ k. none;
  load_balancing = "round_robin";
}

abbrev at : String → HttpPath
at path = record {
  path = path;
  path_type = some prefix;
  backend = record {
    service_name = "web";
    service_port = record { is_string = false; int_val = pos 80; str_val = "" };
  };
}

abbrev served : Ingress
served = record web {
  rules = record { host = "a.example"; http = some (at "/" ∷ at "/shop" ∷ []) } ∷ [];
}

every_path_is_placed_example :
    (servers : Map Site) × (create_servers list_sets certificates settings
        (λ host. 9)
        (served ∷ [])
        (create_upstreams names store (λ host. 9) (served ∷ []) unknown)
        unknown
      ≡ some servers)
    × (placed : Stage) × (place_ingresses false
          (served ∷ [])
          (begun servers (create_upstreams names store (λ host. 9) (served ∷ []) unknown))
        ≡ some placed)
    × All
        (AreServed
          (begun servers (create_upstreams names store (λ host. 9) (served ∷ []) unknown))
          placed)
        (served ∷ [])
unfolding upstream_name port_string
every_path_is_placed_example =
    every_path_is_placed list_sets names store certificates settings false (λ host. 9) unknown
      (served ∷ []) (λ a. refl) (((refl, (refl, tt)), tt), tt)

abbrev location : String → Location
location path = record zero_location { path = path }

abbrev path_of : Location → String
path_of l = l.path

abbrev given : List Location
given = location "/" ∷ location "/b" ∷ location "/shop" ∷ location "/c" ∷ []

in_order : map path_of (sort_locations given) ≡ "/shop" ∷ "/c" ∷ "/b" ∷ "/" ∷ []
unfolding sort_locations
in_order = refl

sort_locations_lem_example :
    Perm given (sort_locations given) × Pairs MayPrecede (sort_locations given)
sort_locations_lem_example = sort_locations_lem given
