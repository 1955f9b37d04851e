-- ===== src/Tests/Removed.antt =====
-- Runs of the hosts and ingresses that are removed.
use ingress_nginx.Prelude.{ℕ, zero, suc, [], ◌∷◌, none, some, ◌≡◌, refl, String, elems, string_eq}
use ingress_nginx.Api.{meta_namespace_key}
use ingress_nginx.Maps.{contains}
use ingress_nginx.StringSets.{list_sets, add, minus}
use ingress_nginx.Types.Annotations.{zero_annotations}
use ingress_nginx.Types.Configuration.{Configuration, zero_configuration}
use ingress_nginx.Types.Heap.{Heap}
use ingress_nginx.Types.Ingress.{Ingress}
use ingress_nginx.Types.Location.{Location, zero_location}
use ingress_nginx.Types.Server.{Server, zero_server}
use ingress_nginx.Controller.Removed.{get_removed_hosts, get_removed_ingresses}
use ingress_nginx.Controller.Removed.Laws.{hosts, ListsRemoved, get_removed_hosts_exact}
use ingress_nginx.Tests.Samples.{heap}

abbrev owner : String → Ingress
owner name = record {
  namespace = "default";
  name = name;
  raw_annotations = [];
  backend = none;
  rules = [];
  tls = [];
  parsed_annotations = zero_annotations;
}

abbrev location_at : ℕ → Location
location_at zero = record zero_location { ingress = some (owner "old") }
location_at (suc n) = record zero_location { ingress = some (owner "new") }

abbrev server_at : ℕ → Server
server_at zero = record zero_server {
  hostname = "old.example";
  locations = some (some 0 ∷ some 1 ∷ []);
}
server_at (suc n) = record zero_server { hostname = "new.example"; locations = some (some 1 ∷ []) }

abbrev removal_heap : Heap
removal_heap = record heap { location = location_at; server = server_at }

abbrev running : Configuration
running = record zero_configuration { servers = some (some 0 ∷ some 1 ∷ []) }

abbrev next : Configuration
next = record zero_configuration { servers = some (some 1 ∷ []) }

run :
    (get_removed_hosts list_sets removal_heap running next ≡ some ("old.example" ∷ []))
    × (get_removed_ingresses list_sets removal_heap running next ≡ some ("default/old" ∷ []))
unfolding get_removed_hosts get_removed_ingresses add minus contains meta_namespace_key
run = (refl, refl)

get_removed_hosts_exact_example :
    ListsRemoved removal_heap list_sets
      (hosts removal_heap (elems running.servers))
      (hosts removal_heap (elems next.servers))
      (get_removed_hosts list_sets removal_heap running next)
get_removed_hosts_exact_example = get_removed_hosts_exact removal_heap list_sets running next tt tt
