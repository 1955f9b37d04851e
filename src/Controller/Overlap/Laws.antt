-- ===== src/Controller/Overlap/Laws.antt =====
-- Why `checkOverlap` refuses an ingress.
use ingress_nginx.Prelude.{true, false, List, elems, String, string_eq, ◌≡◌, Some}
use ingress_nginx.Api.{Rule}
use ingress_nginx.Types.Heap.{Heap}
use ingress_nginx.Types.Ingress.{Ingress}
use ingress_nginx.Types.Server.{Server}
use ingress_nginx.Controller.Locations.{root_location}
use ingress_nginx.Controller.Upstreams.Merging.{def_server_name}
use ingress_nginx.Controller.Overlap.{is_same, conflicts, or_default}
use ingress_nginx.Controller.Overlap.Placed.{Serves}

module _ (H : Heap) where
  -- What stands behind a refusal at a host and a path: a server has a location of another ingress
  -- there, and the two are in conflict.
  pub record IsOverlap (ing : Ingress) (servers : List Server) (host path : String) (e : Ingress)
      : Type 0 where
    pub served : Some (Serves H host path e) servers
    pub other : is_same e ing ≡ false
    pub conflict : conflicts ing e ≡ true

  -- A path of a rule of the ingress, with the defaults for an empty host and an empty path.
  abbrev pub Names : String → String → Rule → Type 0
  Names host path r =
      (host ≡ or_default def_server_name r.host)
      × Some (λ q. path ≡ or_default root_location q.path) (elems r.http)
