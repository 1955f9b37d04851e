-- ===== src/Tests/Placing.antt =====
-- Runs of the placement of paths on a server.
use ingress_nginx.Prelude.{
  List, [], ◌∷◌, none, some, true, false, ◌≡◌, refl, String, string_eq, Some, pos,
}
use ingress_nginx.Api.{HttpPath, PathType, exact, prefix}
use ingress_nginx.Maps.{contains}
use ingress_nginx.Types.Annotations.{zero_annotations}
use ingress_nginx.Types.Backend.{Backend, zero_backend}
use ingress_nginx.Types.Ingress.{Ingress}
use ingress_nginx.Types.Location.{Location, zero_location}
use ingress_nginx.Controller.Endpoints.Laws.{NoRepeats}
use ingress_nginx.Controller.Annotated.{location_apply_annotations}
use ingress_nginx.Controller.Placing.{place}
use ingress_nginx.Controller.Placing.Laws.{IsFor, paths, place_serves, place_keeps_distinct}

abbrev path_of : PathType → String → HttpPath
path_of t path = record {
  path = path;
  path_type = some t;
  backend = record {
    service_name = "web";
    service_port = record { is_string = false; int_val = pos 80; str_val = "" };
  };
}

abbrev ingress : Ingress
ingress = record {
  namespace = "default";
  name = "web";
  raw_annotations = [];
  backend = none;
  rules = [];
  tls = [];
  parsed_annotations = zero_annotations;
}

abbrev ups : Backend
ups = record zero_backend { name = "default-web-80" }

-- The location of the default backend, and one of another ingress.
abbrev given : List Location
given =
    record zero_location { path = "/"; path_type = some prefix; is_def_backend = true }
    ∷ record zero_location { path = "/foo"; path_type = some exact; backend = "other" }
    ∷ []

-- The root is taken over, and the other location is left.
taken_over : paths (place ingress (path_of prefix "") ups given).locations ≡ "/" ∷ "/foo" ∷ []
unfolding place location_apply_annotations
taken_over = refl

-- The search stops at the first location with the path, which has another type, so that a second
-- location with the same path and type is added.
added_twice :
    paths
      (place ingress
        (path_of prefix "/foo")
        ups
        (place ingress (path_of prefix "/foo") ups given).locations).locations
    ≡ "/" ∷ "/foo" ∷ "/foo" ∷ "/foo" ∷ []
unfolding place location_apply_annotations
added_twice = refl

place_serves_example :
    Some (IsFor (path_of prefix "/bar")) (place ingress (path_of prefix "/bar") ups given).locations
    × ((l : Location)
        → l.is_def_backend ≡ false
        → Some (λ m. l ≡ m) given
        → Some (λ m. l ≡ m) (place ingress (path_of prefix "/bar") ups given).locations)
place_serves_example = place_serves ingress (path_of prefix "/bar") ups given

distinct : NoRepeats (paths given)
unfolding contains
distinct = (refl, (refl, tt))

place_keeps_distinct_example :
    NoRepeats (paths (place ingress (path_of prefix "") ups given).locations)
place_keeps_distinct_example =
    place_keeps_distinct ingress (path_of prefix "") ups given distinct (λ h. refl, (λ h. cc, tt))
