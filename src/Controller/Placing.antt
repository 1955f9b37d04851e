-- ===== src/Controller/Placing.antt =====
-- internal/ingress/controller/controller.go, getBackendServers: the location of a server that a path
-- of an ingress gets, where the upstream of the path has servers.
pub mod Laws
use ingress_nginx.Prelude.{
  Bool, false, not, Option, none, some, List, [], ◌∷◌, ◌++◌, String, ◌==◌, string_eq, option_beq,
  if◌then◌else◌,
}
use ingress_nginx.Api.{HttpPath, PathType}
use ingress_nginx.Annotations.Redirect
use ingress_nginx.Types.Backend.{Backend}
use ingress_nginx.Types.Ingress.{Ingress}
use ingress_nginx.Types.Location.{Location, zero_location}
use ingress_nginx.Controller.Annotated.{location_apply_annotations}
use ingress_nginx.Controller.Locations.{root_location}
use ingress_nginx.Controller.Upstreams.Merging.{path_type_beq}

abbrev pub nginx_path : HttpPath → String
nginx_path p = if p.path == "" then root_location else p.path

-- apiequality.Semantic.DeepEqual on pointers to path types
abbrev pub types_equal : Option PathType → Option PathType → Bool
types_equal = option_beq path_type_beq

-- A location of the default backend that a path takes over.
unfoldable pub replaced : Ingress → Backend → Location → Location
unfolding location_apply_annotations
replaced ing ups loc =
    location_apply_annotations
      (record loc {
        backend = ups.name;
        is_def_backend = false;
        port = ups.port;
        service = ups.service;
        ingress = some ing;
      })
      ing.parsed_annotations

-- The location that is added.
unfoldable pub new_location : Ingress → HttpPath → Backend → Location
unfolding location_apply_annotations
new_location ing p ups =
    location_apply_annotations
      (record zero_location {
        path = nginx_path p;
        path_type = p.path_type;
        backend = ups.name;
        is_def_backend = false;
        service = ups.service;
        port = ups.port;
        ingress = some ing;
      })
      ing.parsed_annotations

-- The locations, and whether `RedirectFromToWWW` is set.
pub record Placed : Type 0 where
  pub locations : List Location
  pub from_to_www : Bool

-- The loop over the locations of the server; `none` leaves `addLoc` true.
unfoldable pub place_existing : Ingress → HttpPath → Backend → List Location → Option Placed
unfolding replaced
place_existing ing p ups [] = none
place_existing ing p ups (loc ∷ ls) =
    let later : Option Placed = elim (place_existing ing p ups ls) [
      | none ↦ none
      | some r ↦ some (record r { locations = loc ∷ r.locations })
    ] in
    if not (loc.path == nginx_path p)
    then later
    else if not (types_equal loc.path_type p.path_type)
    then none
    else if not loc.is_def_backend
    then some (record { locations = loc ∷ ls; from_to_www = false })
    else some (record {
      locations = replaced ing ups loc ∷ ls;
      from_to_www = (replaced ing ups loc).redirect.from_to_www;
    })

-- The loop and what follows it.
unfoldable pub place : Ingress → HttpPath → Backend → List Location → Placed
unfolding place_existing new_location
place ing p ups ls = elim (place_existing ing p ups ls) [
  | some r ↦ r
  | none ↦ record {
    locations = ls ++ (new_location ing p ups ∷ []);
    from_to_www = (new_location ing p ups).redirect.from_to_www;
  }
]
