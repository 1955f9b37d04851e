-- ===== src/Controller/Upstreams/Merging.antt =====
-- internal/ingress/controller/controller.go: the alternative backends of canary ingresses. The
-- servers are read for their locations only; `none` is a panic on a nil pointer.
pub mod Laws
pub mod Keeps
pub mod Runs
pub mod Attached
use ingress_nginx.Prelude.{
  Bool, true, false, not, ◌&&◌, Option, none, some, List, [], ◌∷◌, ◌++◌, elems, String, ◌==◌,
  string_eq, if◌then◌else◌,
}
use ingress_nginx.Api.{HttpPath, PathType, exact, prefix, implementation_specific, Rule}
use ingress_nginx.Maps.{Map, get, put, remove, contains}
use ingress_nginx.Types.Backend.{Backend}
use ingress_nginx.Types.Ingress.{Ingress}
use ingress_nginx.Types.Location.{Location}
use ingress_nginx.Controller.Upstreams.{name_for, def_upstream_name}

abbrev pub def_server_name : String
def_server_name = "_"

abbrev pub path_type_beq : PathType → PathType → Bool
path_type_beq exact exact = true
path_type_beq prefix prefix = true
path_type_beq implementation_specific implementation_specific = true
path_type_beq _ _ = false

-- `canMergeBackend`, for an alternative that is not nil
unfoldable pub can_merge_backend : Backend → Backend → Bool
can_merge_backend primary alternative =
    not (primary.name == alternative.name)
    && not (primary.name == def_upstream_name)
    && not primary.no_server

-- `mergeAlternativeBackend`: the primary after the call, and the result.
unfoldable pub merge_alternative_backend : Backend → Backend → Backend × Bool
unfolding contains
merge_alternative_backend pri alt =
    if pri.no_server
    then (pri, false)
    else if contains (elems pri.alternative_backends) alt.name
    then (pri, true)
    else (
      record pri {
        alternative_backends = some (elems pri.alternative_backends ++ (alt.name ∷ []));
      },
      true,
    )

-- The variables of the loop over the locations.
pub record Merge : Type 0 where
  pub upstreams : Map Backend
  pub merged : Bool
  pub alt_equals_pri : Bool

-- The loop over the locations; `wanted` is the test on the path.
unfoldable pub merge_locations :
    (Location → Option Bool) → Backend → List Location → Bool → Map Backend → Option Merge
unfolding can_merge_backend merge_alternative_backend get put
merge_locations wanted alt [] merged m =
    some (record { upstreams = m; merged = merged; alt_equals_pri = false })
merge_locations wanted alt (l ∷ ls) merged m = elim (get l.backend m) [
  | none ↦ none
  | some pri ↦ elim (alt.name == pri.name) [
    | true ↦ some (record { upstreams = m; merged = merged; alt_equals_pri = true })
    | false ↦ elim (can_merge_backend pri alt) [
      | false ↦ merge_locations wanted alt ls merged m
      | true ↦ elim (wanted l) [
        | none ↦ none
        | some false ↦ merge_locations wanted alt ls merged m
        | some true ↦
            let r = merge_alternative_backend pri alt in
            merge_locations wanted alt ls r.1 (put l.backend r.0 m)
      ]
    ]
  ]
]

-- What follows the loop.
unfoldable pub settle : Backend → Merge → Map Backend
unfolding remove
settle alt r =
    if not r.alt_equals_pri && not r.merged then remove alt.name r.upstreams else r.upstreams

-- The test of the loop for a default backend, and that for a path.
abbrev pub any_location : Location → Option Bool
any_location l = some true

abbrev pub same_path : HttpPath → Location → Option Bool
same_path p l = if not (l.path == p.path) then some false else elim l.path_type [
  | none ↦ none
  | some t ↦ elim p.path_type [ none ↦ none | some u ↦ some (path_type_beq t u) ]
]

unfoldable pub merge_and_settle :
    (Location → Option Bool) → Backend → List Location → Map Backend → Option (Map Backend)
unfolding merge_locations settle
merge_and_settle wanted alt ls m = elim (merge_locations wanted alt ls false m) [
  | none ↦ none
  | some r ↦ some (settle alt r)
]

unfoldable pub merge_default : Ingress → Map (List Location) → Map Backend → Option (Map Backend)
unfolding get merge_and_settle
merge_default ing servers m = elim ing.backend [
  | none ↦ some m
  | some b ↦ elim (get (name_for ing b) m) [
    | none ↦ some m
    | some alt ↦ elim (get def_server_name servers) [
      | none ↦ none
      | some ls ↦ merge_and_settle any_location alt ls m
    ]
  ]
]

unfoldable pub merge_path :
    Ingress → String → HttpPath → Map (List Location) → Map Backend → Option (Map Backend)
unfolding get merge_and_settle
merge_path ing host p servers m = elim (get (name_for ing p.backend) m) [
  | none ↦ some m
  | some alt ↦ elim (get host servers) [
    | none ↦ some m
    | some ls ↦ merge_and_settle (same_path p) alt ls m
  ]
]

unfoldable pub merge_paths :
    Ingress → String → List HttpPath → Map (List Location) → Map Backend → Option (Map Backend)
unfolding merge_path
merge_paths ing host [] servers m = some m
merge_paths ing host (p ∷ ps) servers m = elim (merge_path ing host p servers m) [
  | none ↦ none
  | some m' ↦ merge_paths ing host ps servers m'
]

unfoldable pub merge_rules :
    Ingress → List Rule → Map (List Location) → Map Backend → Option (Map Backend)
unfolding merge_paths
merge_rules ing [] servers m = some m
merge_rules ing (r ∷ rs) servers m = elim r.http [
  | none ↦ none
  | some ps ↦ elim (merge_paths ing r.host ps servers m) [
    | none ↦ none
    | some m' ↦ merge_rules ing rs servers m'
  ]
]

-- `mergeAlternativeBackends`
unfoldable pub merge_alternative_backends :
    Ingress → Map Backend → Map (List Location) → Option (Map Backend)
unfolding merge_default merge_rules
merge_alternative_backends ing upstreams servers = elim (merge_default ing servers upstreams) [
  | none ↦ none
  | some m ↦ merge_rules ing ing.rules servers m
]
