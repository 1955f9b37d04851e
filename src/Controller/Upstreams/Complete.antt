-- ===== src/Controller/Upstreams/Complete.antt =====
-- No backend that an ingress names is without an upstream.
use ingress_nginx.Prelude.{
  ℕ, true, some, List, [], ◌∷◌, elems, String, string_eq, ◌≡◌, inl, inr, arith, Bool-cases,
  Option-cases, eq_refl, All, if◌then◌else◌,
}
use ingress_nginx.Api.{IngressBackend, HttpPath, Rule}
use ingress_nginx.Maps.{Map, get, put, member}
use ingress_nginx.Types.Backend.{Backend}
use ingress_nginx.Types.Ingress.{Ingress}
use ingress_nginx.Controller.Endpoints.{Names}
use ingress_nginx.Controller.Services.{StoreView}
use ingress_nginx.Controller.Upstreams.{
  name_for, default_upstream, path_upstream, add_paths, add_rules, add_ingresses, create_upstreams,
  def_upstream_name, add_default,
}
use ingress_nginx.Controller.Upstreams.Named.{Extends, put-Extends, put-member}

-- The backends of an ingress have upstreams.
abbrev pub HasPaths : Ingress → Map Backend → List HttpPath → Type 0
HasPaths ing m ps = All (λ p. member (name_for ing p.backend) m ≡ true) ps

abbrev pub HasRules : Ingress → Map Backend → List Rule → Type 0
HasRules ing m rs = All (λ r. HasPaths ing m (elems r.http)) rs

abbrev pub HasUpstreams : Map Backend → Ingress → Type 0
HasUpstreams m ing =
    ((b : IngressBackend) → ing.backend ≡ some b → member (name_for ing b) m ≡ true)
    × HasRules ing m ing.rules

HasPaths-Extends :
    (ing : Ingress) (m m' : Map Backend) (ps : List HttpPath)
    → Extends m m'
    → HasPaths ing m ps
    → HasPaths ing m' ps
HasPaths-Extends ing m m' [] e h = h
HasPaths-Extends ing m m' (p ∷ ps) e h =
    (e (name_for ing p.backend) h.0, HasPaths-Extends ing m m' ps e h.1)

HasRules-Extends :
    (ing : Ingress) (m m' : Map Backend) (rs : List Rule)
    → Extends m m'
    → HasRules ing m rs
    → HasRules ing m' rs
HasRules-Extends ing m m' [] e h = h
HasRules-Extends ing m m' (r ∷ rs) e h =
    (HasPaths-Extends ing m m' (elems r.http) e h.0, HasRules-Extends ing m m' rs e h.1)

module _ (N : Names) (S : StoreView) (fresh : String → ℕ) where
  add_paths-Extends :
      (ing : Ingress) (ps : List HttpPath) (m : Map Backend)
      → Extends m (add_paths N S fresh ing ps m)
  unfolding add_paths
  add_paths-Extends ing [] m k h = h
  add_paths-Extends ing (p ∷ ps) m k h =
      let name = name_for ing p.backend in
      let u = path_upstream N S (fresh name) ing p.backend in
      add_paths-Extends ing ps (if member name m then m else put name u m) k
        (elim (Bool-cases (member name m)) [
          | inl old ↦ rw old h
          | inr missing ↦ rw missing (put-Extends name u m k h)
        ])

  add_paths-HasPaths :
      (ing : Ingress) (ps : List HttpPath) (m : Map Backend)
      → HasPaths ing (add_paths N S fresh ing ps m) ps
  unfolding add_paths
  add_paths-HasPaths ing [] m = tt
  add_paths-HasPaths ing (p ∷ ps) m =
      let name = name_for ing p.backend in
      let u = path_upstream N S (fresh name) ing p.backend in
      let next = if member name m then m else put name u m in
      (
        add_paths-Extends ing ps next name (elim (Bool-cases (member name m)) [
          | inl old ↦ rw old old
          | inr missing ↦ rw missing (put-member name u m)
        ]),
        add_paths-HasPaths ing ps next,
      )

  add_rules-Extends :
      (ing : Ingress) (rs : List Rule) (m : Map Backend) → Extends m (add_rules N S fresh ing rs m)
  unfolding add_rules
  add_rules-Extends ing [] m k h = h
  add_rules-Extends ing (r ∷ rs) m k h =
      add_rules-Extends ing rs (add_paths N S fresh ing (elems r.http) m) k
        (add_paths-Extends ing (elems r.http) m k h)

  add_rules-HasRules :
      (ing : Ingress) (rs : List Rule) (m : Map Backend)
      → HasRules ing (add_rules N S fresh ing rs m) rs
  unfolding add_rules
  add_rules-HasRules ing [] m = tt
  add_rules-HasRules ing (r ∷ rs) m =
      let next = add_paths N S fresh ing (elems r.http) m in
      (
        HasPaths-Extends ing next (add_rules N S fresh ing rs next) (elems r.http)
            (add_rules-Extends ing rs next) (add_paths-HasPaths ing (elems r.http) m),
        add_rules-HasRules ing rs next,
      )

  add_default-Extends : (ing : Ingress) (m : Map Backend) → Extends m (add_default N S fresh ing m)
  add_default-Extends ing m k h = elim (Option-cases ing.backend) [
    | inl missing ↦ rw (missing, add_default) h
    | inr (b, given) ↦
        rw (given, add_default)
          (put-Extends (name_for ing b) (default_upstream N S (fresh (name_for ing b)) ing b) m k h)
  ]

  abbrev added : Ingress → Map Backend → Map Backend
  added ing m = add_rules N S fresh ing ing.rules (add_default N S fresh ing m)

  added-HasUpstreams : (ing : Ingress) (m : Map Backend) → HasUpstreams (added ing m) ing
  added-HasUpstreams ing m = (
    λ b given. add_rules-Extends ing ing.rules (add_default N S fresh ing m) (name_for ing b) (
        rw (given, add_default)
          (put-member (name_for ing b) (default_upstream N S (fresh (name_for ing b)) ing b) m)),
    add_rules-HasRules ing ing.rules (add_default N S fresh ing m),
  )

  add_ingresses-Extends :
      (ings : List Ingress) (m : Map Backend) → Extends m (add_ingresses N S fresh ings m)
  unfolding add_ingresses
  add_ingresses-Extends [] m k h = h
  add_ingresses-Extends (ing ∷ ings) m k h = add_ingresses-Extends ings (added ing m) k (
      add_rules-Extends ing ing.rules (add_default N S fresh ing m) k
        (add_default-Extends ing m k h))

  add_ingresses_complete :
      (ings : List Ingress) (m : Map Backend)
      → All (HasUpstreams (add_ingresses N S fresh ings m)) ings
  unfolding add_ingresses
  add_ingresses_complete [] m = tt
  add_ingresses_complete (ing ∷ ings) m =
      let next = added ing m in
      let last = add_ingresses N S fresh ings next in
      let grows = add_ingresses-Extends ings next in
      (
        (
          λ b given. grows (name_for ing b) ((added-HasUpstreams ing m).0 b given),
          HasRules-Extends ing next last ing.rules grows (added-HasUpstreams ing m).1,
        ),
        add_ingresses_complete ings next,
      )

  -- The map of upstreams has one for the default backend, and one for the default backend and for
  -- each path of each ingress, under the name that `upstreamName` gives.
  pub create_upstreams_complete :
      (ings : List Ingress) (du : Backend)
      → (member def_upstream_name (create_upstreams N S fresh ings du) ≡ true)
        × All (HasUpstreams (create_upstreams N S fresh ings du)) ings
  unfolding create_upstreams get
  create_upstreams_complete ings du = (
    add_ingresses-Extends ings ((def_upstream_name, du) ∷ []) def_upstream_name
        (ground (arith, eq_refl def_upstream_name)),
    add_ingresses_complete ings ((def_upstream_name, du) ∷ []),
  )
