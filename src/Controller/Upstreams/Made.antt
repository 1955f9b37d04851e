-- ===== src/Controller/Upstreams/Made.antt =====
-- A property of every upstream that createUpstreams makes.
use ingress_nginx.Prelude.{
  ℕ, List, [], ◌∷◌, elems, String, string_eq, inl, inr, arith, Bool-cases, Option-cases,
  if◌then◌else◌,
}
use ingress_nginx.Api.{IngressBackend, HttpPath, Rule}
use ingress_nginx.Maps.{Map, get, put, member}
use ingress_nginx.Maps.All.{AllFound, put-AllFound}
use ingress_nginx.Types.Backend.{Backend}
use ingress_nginx.Types.Ingress.{Ingress}
use ingress_nginx.Controller.Endpoints.{Names}
use ingress_nginx.Controller.Services.{StoreView}
use ingress_nginx.Controller.Upstreams.{
  name_for, default_upstream, path_upstream, add_paths, add_rules, add_ingresses, create_upstreams,
  def_upstream_name, add_default,
}

module _ (N : Names) (S : StoreView) (fresh : String → ℕ) (P : String → Backend → Type 0)
    (of_default : (a : ℕ) (ing : Ingress) (b : IngressBackend)
      → P (name_for ing b) (default_upstream N S a ing b))
    (of_path : (a : ℕ) (ing : Ingress) (b : IngressBackend)
      → P (name_for ing b) (path_upstream N S a ing b)) where
  add_default-AllFound :
      (ing : Ingress) (m : Map Backend) → AllFound P m → AllFound P (add_default N S fresh ing m)
  add_default-AllFound ing m all = elim (Option-cases ing.backend) [
    | inl missing ↦ rw (missing, add_default) all
    | inr (b, given) ↦
        let name = name_for ing b in
        rw (given, add_default)
          (put-AllFound P name (default_upstream N S (fresh name) ing b) m
            (of_default (fresh name) ing b) all)
  ]

  add_paths-AllFound :
      (ing : Ingress) (ps : List HttpPath) (m : Map Backend)
      → AllFound P m
      → AllFound P (add_paths N S fresh ing ps m)
  unfolding add_paths
  add_paths-AllFound ing [] m all = all
  add_paths-AllFound ing (p ∷ ps) m all =
      let name = name_for ing p.backend in
      let u = path_upstream N S (fresh name) ing p.backend in
      add_paths-AllFound ing ps (if member name m then m else put name u m)
        (elim (Bool-cases (member name m)) [
          | inl old ↦ rw old all
          | inr missing ↦
              rw missing (put-AllFound P name u m (of_path (fresh name) ing p.backend) all)
        ])

  add_rules-AllFound :
      (ing : Ingress) (rs : List Rule) (m : Map Backend)
      → AllFound P m
      → AllFound P (add_rules N S fresh ing rs m)
  unfolding add_rules
  add_rules-AllFound ing [] m all = all
  add_rules-AllFound ing (r ∷ rs) m all =
      add_rules-AllFound ing rs (add_paths N S fresh ing (elems r.http) m)
        (add_paths-AllFound ing (elems r.http) m all)

  add_ingresses-AllFound :
      (ings : List Ingress) (m : Map Backend)
      → AllFound P m
      → AllFound P (add_ingresses N S fresh ings m)
  unfolding add_ingresses
  add_ingresses-AllFound [] m all = all
  add_ingresses-AllFound (ing ∷ ings) m all =
      add_ingresses-AllFound ings (add_rules N S fresh ing ing.rules (add_default N S fresh ing m))
        (add_rules-AllFound ing ing.rules (add_default N S fresh ing m)
          (add_default-AllFound ing m all))

  pub create_upstreams-AllFound :
      (ings : List Ingress) (du : Backend)
      → P def_upstream_name du
      → AllFound P (create_upstreams N S fresh ings du)
  unfolding create_upstreams get put
  create_upstreams-AllFound ings du p =
      add_ingresses-AllFound ings ((def_upstream_name, du) ∷ [])
        (put-AllFound P def_upstream_name du [] p (λ k u h. ground (arith, h)))
