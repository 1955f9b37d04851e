-- ===== src/Tests/Upstreams.antt =====
-- Runs of the creation of upstreams and of the merge of a canary ingress.
use ingress_nginx.Prelude.{
  List, [], ◌∷◌, none, some, true, false, ◌≡◌, refl, String, string_eq, pos, inl, All, elems,
}
use ingress_nginx.Api.{IngressBackend, HttpPath, prefix, zero_service, port_string}
use ingress_nginx.Annotations.Canary
use ingress_nginx.Maps.{Map, get, member, contains}
use ingress_nginx.Types.Annotations.{zero_annotations}
use ingress_nginx.Types.Backend.{Backend, zero_backend}
use ingress_nginx.Types.Ingress.{Ingress}
use ingress_nginx.Types.Location.{Location, zero_location}
use ingress_nginx.Controller.Services.{StoreView}
use ingress_nginx.Controller.Upstreams.{create_upstreams, def_upstream_name, upstream_name}
use ingress_nginx.Controller.Upstreams.Named.{create_upstreams-IsNamed, IsNamed}
use ingress_nginx.Controller.Upstreams.Complete.{create_upstreams_complete, HasUpstreams}
use ingress_nginx.Controller.Upstreams.Merging.{
  merge_alternative_backends, can_merge_backend, same_path, merge_and_settle,
}
use ingress_nginx.Controller.Upstreams.Merging.Laws.{IsGrown}
use ingress_nginx.Controller.Upstreams.Merging.Keeps.{merge_alternative_backends_keeps}
use ingress_nginx.Controller.Upstreams.Merging.Attached.{canary_is_attached}
use ingress_nginx.Tests.Backends.{names}

abbrev store : StoreView
store = record {
  get_service = λ k. some 0;
  service_at = λ a. zero_service;
  get_service_endpoints = λ k. none;
  load_balancing = "round_robin";
}

abbrev backend : String → IngressBackend
backend service = record {
  service_name = service;
  service_port = record { is_string = false; int_val = pos 80; str_val = "" };
}

abbrev path_of : String → HttpPath
path_of service = record { path = "/"; path_type = some prefix; backend = backend service }

abbrev ingress : Ingress
ingress = record {
  namespace = "default";
  name = "web";
  raw_annotations = [];
  backend = none;
  rules = record { host = "a.example"; http = some (path_of "web" ∷ []) } ∷ [];
  tls = [];
  parsed_annotations = zero_annotations;
}

abbrev canary : Ingress
canary = record ingress {
  name = "canary";
  rules = record { host = "a.example"; http = some (path_of "next" ∷ []) } ∷ [];
  parsed_annotations = record zero_annotations {
    canary = record Canary.zero_config { enabled = true; weight = pos 10 };
  };
}

abbrev default_backend : Backend
default_backend = record zero_backend { name = def_upstream_name }

abbrev both : List Ingress
both = ingress ∷ canary ∷ []

abbrev made : Map Backend
unfolding create_upstreams
made = create_upstreams names store (λ name. 0) both default_backend

create_upstreams_complete_example :
    (member def_upstream_name (create_upstreams names store (λ name. 0) both default_backend)
      ≡ true)
    × All (HasUpstreams (create_upstreams names store (λ name. 0) both default_backend)) both
create_upstreams_complete_example =
    create_upstreams_complete names store (λ name. 0) both default_backend

create_upstreams-IsNamed_example :
    IsNamed (create_upstreams names store (λ name. 0) both default_backend)
create_upstreams-IsNamed_example =
    create_upstreams-IsNamed names store (λ name. 0) both default_backend refl

abbrev web : Backend
web = record zero_backend { name = "default-web-80" }

abbrev next : Backend
next = record zero_backend { name = "default-next-80"; no_server = true }

abbrev upstreams : Map Backend
upstreams = ("default-web-80", web) ∷ ("default-next-80", next) ∷ []

abbrev root : Location
root = record zero_location { path = "/"; path_type = some prefix; backend = "default-web-80" }

abbrev merged : Map Backend
merged =
    ("default-web-80", record web { alternative_backends = some ("default-next-80" ∷ []) })
    ∷ ("default-next-80", next)
    ∷ []

run : merge_alternative_backends canary upstreams (("a.example", root ∷ []) ∷ []) ≡ some merged
unfolding merge_alternative_backends upstream_name port_string
run = refl

merge_alternative_backends_keeps_example :
    (u : Backend) × ((get "default-web-80" upstreams ≡ some u)
      × IsGrown u (record web { alternative_backends = some ("default-next-80" ∷ []) }))
unfolding get
merge_alternative_backends_keeps_example =
    merge_alternative_backends_keeps canary upstreams merged (("a.example", root ∷ []) ∷ []) run
      "default-web-80" (record web { alternative_backends = some ("default-next-80" ∷ []) }) refl

canary_is_attached_example :
    (m' : Map Backend) × ((merge_and_settle (same_path (path_of "next")) next (root ∷ []) upstreams
        ≡ some m')
      × (((v : Backend) × ((get "default-web-80" m' ≡ some v)
              × (contains (elems v.alternative_backends) "default-next-80" ≡ true)))
          × ((a : Backend)
              → get "default-next-80" upstreams ≡ some a
              → (b : Backend) × ((get "default-next-80" m' ≡ some b) × IsGrown a b))))
unfolding get can_merge_backend
canary_is_attached_example =
    canary_is_attached (same_path (path_of "next")) next (root ∷ []) upstreams "default-web-80"
      (record { primary = web; found = refl; differs = refl; test = true; tested = refl }, tt)
      (inl (record { here = refl; primary = web; found = refl; can = refl; hit = refl }))

-- The second path of the ingress matches no location, so that the alternative, which the first one
-- merged, is removed, and the primary keeps its name.
abbrev two_paths : Ingress
two_paths = record canary {
  rules =
      record {
        host = "a.example";
        http = some (path_of "next" ∷ record (path_of "next") { path = "/other" } ∷ []);
      }
      ∷ [];
}

dangling :
    merge_alternative_backends two_paths upstreams (("a.example", root ∷ []) ∷ [])
    ≡ some (
        ("default-web-80", record web { alternative_backends = some ("default-next-80" ∷ []) })
        ∷ [])
unfolding merge_alternative_backends upstream_name port_string
dangling = refl
