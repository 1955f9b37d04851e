-- ===== src/Controller/Overlap.antt =====
-- internal/ingress/controller/controller.go: whether an ingress that is admitted overlaps another.
-- The prefix of the annotations is the default one.
pub mod Placed
pub mod Laws
use ingress_nginx.Prelude.{
  Bool, true, false, not, ◌&&◌, ◌||◌, Option, none, some, List, [], ◌∷◌, ◌++◌, elems, String, ◌==◌,
  string_eq, if◌then◌else◌,
}
use ingress_nginx.Api.{Ref, HttpPath, Rule}
use ingress_nginx.Parser.{Parsed, value, failed, missing_annotations, get_bool_annotation}
use ingress_nginx.Types.Heap.{Heap}
use ingress_nginx.Types.Ingress.{Ingress}
use ingress_nginx.Types.Server.{Server}
use ingress_nginx.Controller.Locations.{root_location}
use ingress_nginx.Controller.Upstreams.Merging.{def_server_name}

-- What a loop of `checkOverlap` does: it panics on a nil pointer, it goes on, or it returns, with
-- nil or with an error that names the host, the path, and the other ingress.
pub data Outcome : Type 0 where
  panics goes_on accepts : Outcome
  refuses : String → String → Ingress → Outcome

abbrev pub and_then : Outcome → Outcome → Outcome
and_then goes_on next = next
and_then panics next = panics
and_then accepts next = accepts
and_then (refuses h p e) next = refuses h p e

-- The flag that `GetBoolAnnotation` returns, and whether its error is ErrMissingAnnotations.
abbrev pub is_canary : Ingress → Bool
unfolding get_bool_annotation
is_canary ing = elim (get_bool_annotation "canary" ing.raw_annotations) [
  | value b ↦ b
  | failed e ↦ false
]

abbrev pub is_missing : Parsed Bool → Bool
is_missing (failed missing_annotations) = true
is_missing _ = false

abbrev pub lacks_canary : Ingress → Bool
unfolding get_bool_annotation
lacks_canary ing = is_missing (get_bool_annotation "canary" ing.raw_annotations)

abbrev pub is_same : Ingress → Ingress → Bool
is_same a b = a.namespace == b.namespace && a.name == b.name

unfoldable pub any_same : Ingress → List Ingress → Bool
any_same ing [] = false
any_same ing (e ∷ es) = is_same e ing || any_same ing es

-- The two tests of the inner loop. The second one compares the other ingress's error with itself.
unfoldable pub conflicts : Ingress → Ingress → Bool
unfolding get_bool_annotation
conflicts ing existing = (is_canary ing && is_canary existing) || lacks_canary ing

unfoldable pub first_conflict : Ingress → String → String → List Ingress → Outcome
unfolding conflicts
first_conflict ing host path [] = accepts
first_conflict ing host path (e ∷ es) =
    let rest = first_conflict ing host path es in
    if conflicts ing e then refuses host path e else rest

abbrev pub or_default : String → String → String
or_default d s = if s == "" then d else s

module _ (H : Heap) where
  unfoldable pub ingresses_at : String → List Ref → Option (List Ingress)
  ingresses_at path [] = some []
  ingresses_at path (none ∷ ls) = none
  ingresses_at path (some a ∷ ls) =
      let l = H.location a in
      let rest = ingresses_at path ls in
      if not (l.path == path) then rest else elim l.ingress [
        | none ↦ none
        | some i ↦ elim rest [ none ↦ none | some is ↦ some (i ∷ is) ]
      ]

  -- `ingressForHostPath`
  unfoldable pub ingress_for_host_path : String → String → List Server → Option (List Ingress)
  unfolding ingresses_at
  ingress_for_host_path hostname path [] = some []
  ingress_for_host_path hostname path (s ∷ ss) =
      let rest = ingress_for_host_path hostname path ss in
      if not (hostname == s.hostname) then rest else elim (ingresses_at path (elems s.locations)) [
        | none ↦ none
        | some is ↦ elim rest [ none ↦ none | some js ↦ some (is ++ js) ]
      ]

  -- The body of the loop over the paths.
  unfoldable pub check_path : Ingress → String → String → List Server → Outcome
  unfolding ingress_for_host_path any_same first_conflict
  check_path ing host path servers = elim (ingress_for_host_path host path servers) [
    | none ↦ panics
    | some [] ↦ goes_on
    | some (e ∷ es) ↦
        if any_same ing (e ∷ es) then accepts else first_conflict ing host path (e ∷ es)
  ]

  unfoldable pub check_paths : Ingress → String → List HttpPath → List Server → Outcome
  unfolding check_path
  check_paths ing host [] servers = goes_on
  check_paths ing host (p ∷ ps) servers =
      and_then (check_path ing host (or_default root_location p.path) servers)
        (check_paths ing host ps servers)

  unfoldable pub check_rules : Ingress → List Rule → List Server → Outcome
  unfolding check_paths
  check_rules ing [] servers = goes_on
  check_rules ing (r ∷ rs) servers =
      and_then (check_paths ing (or_default def_server_name r.host) (elems r.http) servers)
        (check_rules ing rs servers)

  -- `checkOverlap`, which returns nil after the loop
  unfoldable pub check_overlap : Ingress → List Server → Outcome
  unfolding check_rules
  check_overlap ing servers = and_then (check_rules ing ing.rules servers) accepts
