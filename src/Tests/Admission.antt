-- ===== src/Tests/Admission.antt =====
-- Runs of the check for overlaps and of the parser of canary annotations.
use ingress_nginx.Prelude.{
  ℕ, pos, zero, suc, List, [], ◌∷◌, none, some, true, false, ◌≡◌, refl, String, string_eq,
}
use ingress_nginx.Annotations.Canary as CanaryConfig
use ingress_nginx.Api.{HttpPath, prefix}
use ingress_nginx.Maps.{Map}
use ingress_nginx.Types.Annotations.{zero_annotations}
use ingress_nginx.Types.Heap.{Heap}
use ingress_nginx.Types.Ingress.{Ingress}
use ingress_nginx.Types.Location.{Location, zero_location}
use ingress_nginx.Types.Server.{Server, zero_server}
use ingress_nginx.Parser.{get_bool_annotation}
use ingress_nginx.Parser.Canary.{parse}
use ingress_nginx.Controller.Overlap.{accepts, check_overlap}
use ingress_nginx.Tests.Samples.{heap}

abbrev path_of : String → HttpPath
path_of path = record {
  path = path;
  path_type = some prefix;
  backend = record {
    service_name = "web";
    service_port = record { is_string = false; int_val = pos 80; str_val = "" };
  };
}

abbrev ingress : String → List HttpPath → Ingress
ingress name paths = record {
  namespace = "default";
  name = name;
  raw_annotations = [];
  backend = none;
  rules = record { host = "a.example"; http = some paths } ∷ [];
  tls = [];
  parsed_annotations = zero_annotations;
}

abbrev web : Ingress
web = ingress "web" (path_of "/web" ∷ [])

abbrev other : Ingress
other = ingress "other" (path_of "/" ∷ [])

-- The location at 0 is that of `web`, and the others are of `other`.
abbrev location_at : ℕ → Location
location_at zero = record zero_location { path = "/web"; ingress = some web }
location_at (suc n) = record zero_location { path = "/"; ingress = some other }

abbrev admission_heap : Heap
admission_heap = record heap { location = location_at }

abbrev servers : List Server
servers =
    record zero_server { hostname = "a.example"; locations = some (some 0 ∷ some 1 ∷ []) } ∷ []

abbrev added : Ingress
added = ingress "added" (path_of "/" ∷ [])

-- The first path is the ingress's own, so that the second one is not looked at.
second_path :
    check_overlap admission_heap (ingress "web" (path_of "/web" ∷ path_of "/" ∷ [])) servers
    ≡ accepts
unfolding check_overlap get_bool_annotation
second_path = refl

abbrev annotations : Map String
annotations =
    ("nginx.ingress.kubernetes.io/canary", "true")
    ∷ ("nginx.ingress.kubernetes.io/canary-weight", "20")
    ∷ []

abbrev config : CanaryConfig.Config
config = record CanaryConfig.zero_config { enabled = true; weight = pos 20 }

parsed : parse annotations ≡ some config
unfolding parse
parsed = refl

not_enabled : parse (("nginx.ingress.kubernetes.io/canary-weight", "20") ∷ []) ≡ none
unfolding parse
not_enabled = refl

-- No annotations are no error, and a weight of 0 asks for nothing.
no_canary :
    (parse [] ≡ some CanaryConfig.zero_config)
    × (parse (("nginx.ingress.kubernetes.io/canary-weight", "0") ∷ [])
        ≡ some CanaryConfig.zero_config)
unfolding parse
no_canary = (refl, refl)
