-- ===== src/Controller/BackendServers/Complete.antt =====
-- createUpstreams, createServers and the loop over the ingresses together.
use ingress_nginx.Prelude.{
  ℕ, Bool, true, false, some, List, [], ◌∷◌, elems, String, ◌==◌, string_eq, ◌≡◌, arith, All, ◌⊎◌,
  inl, inr,
}
use ingress_nginx.Api.{HttpPath, Rule, IngressBackend}
use ingress_nginx.Maps.{Map}
use ingress_nginx.Panics.{Ends-returns}
use ingress_nginx.StringSets.{StringSets}
use ingress_nginx.Types.Backend.{Backend}
use ingress_nginx.Types.Ingress.{Ingress}
use ingress_nginx.Controller.Certificates.{CertificateView}
use ingress_nginx.Controller.BackendServers.{Stage, place_ingresses, server_key}
use ingress_nginx.Controller.BackendServers.EveryPath.{
  IsIngressPlaced, AreRulesPlaced, place_ingresses-Steps,
}
use ingress_nginx.Controller.BackendServers.Progress.{IsWritable, HasFlag, Serves}
use ingress_nginx.Controller.BackendServers.Serving.{IsNameable, AreNameable, IsPlaced, member-flag}
use ingress_nginx.Controller.Endpoints.{Names}
use ingress_nginx.Controller.Servers.{Site, Settings, host_of}
use ingress_nginx.Controller.Servers.Configure.{create_servers}
use ingress_nginx.Controller.Servers.Created.{create_servers_total}
use ingress_nginx.Controller.Services.{StoreView}
use ingress_nginx.Controller.Upstreams.{
  name_for, def_upstream_name, new_upstream, shaped, default_upstream, path_upstream,
  create_upstreams,
}
use ingress_nginx.Controller.Upstreams.Complete.{
  create_upstreams_complete, HasPaths, HasRules, HasUpstreams,
}
use ingress_nginx.Controller.Upstreams.Made.{create_upstreams-AllFound}

module _ (N : Names) (S : StoreView) where
  shaped-affinity :
      (ing : Ingress) (b : IngressBackend) (u : Backend)
      → (shaped N S ing b u).session_affinity ≡ u.session_affinity
  unfolding shaped
  shaped-affinity ing b u = ground arith

  default_upstream-IsWritable :
      (a : ℕ) (ing : Ingress) (b : IngressBackend)
      → IsWritable (name_for ing b) (default_upstream N S a ing b)
  unfolding default_upstream new_upstream
  default_upstream-IsWritable a ing b =
      λ other. ([], ground (arith, shaped-affinity ing b (new_upstream a (name_for ing b))))

  path_upstream-IsWritable :
      (a : ℕ) (ing : Ingress) (b : IngressBackend)
      → IsWritable (name_for ing b) (path_upstream N S a ing b)
  unfolding path_upstream new_upstream
  path_upstream-IsWritable a ing b = λ other. (
    [],
    ground (
      arith,
      shaped-affinity ing b (record (new_upstream a (name_for ing b)) { port = b.service_port }),
    ),
  )

-- No path has the default upstream's name.
abbrev pub AvoidsDefault : Ingress → Type 0
AvoidsDefault ing =
    All (λ r. All (λ p. (name_for ing p.backend == def_upstream_name) ≡ false) (elems r.http))
      ing.rules

-- What the loop over the ingresses begins with.
abbrev pub begun : Map Site → Map Backend → Stage
begun servers upstreams = record { servers = servers; upstreams = upstreams }

paths-IsNameable :
    (st : Stage) (ing : Ingress) (ps : List HttpPath)
    → HasPaths ing st.upstreams ps
    → All (λ p. (name_for ing p.backend == def_upstream_name) ≡ false) ps
    → All (IsNameable st ing) ps
paths-IsNameable st ing [] h k = tt
paths-IsNameable st ing (p ∷ ps) h k = ((h.0, k.0), paths-IsNameable st ing ps h.1 k.1)

rules-AreNameable :
    (st : Stage) (ing : Ingress) (rs : List Rule)
    → HasRules ing st.upstreams rs
    → All (λ r. All (λ p. (name_for ing p.backend == def_upstream_name) ≡ false) (elems r.http)) rs
    → AreNameable st ing rs
rules-AreNameable st ing [] h k = tt
rules-AreNameable st ing (r ∷ rs) h k =
    (paths-IsNameable st ing (elems r.http) h.0 k.0, rules-AreNameable st ing rs h.1 k.1)

ingresses-AreNameable :
    (st : Stage) (ings : List Ingress)
    → All (HasUpstreams st.upstreams) ings
    → All AvoidsDefault ings
    → All (λ ing. AreNameable st ing ing.rules) ings
ingresses-AreNameable st [] h k = tt
ingresses-AreNameable st (ing ∷ ings) h k =
    (rules-AreNameable st ing ing.rules h.0.1 k.0, ingresses-AreNameable st ings h.1 k.1)

-- The upstream of the path takes no server, or the server of the rule's host (the server "_" if the
-- host has none) has a location for the path.
abbrev pub IsServed : Stage → Stage → Ingress → Rule → HttpPath → Type 0
IsServed st st' ing r p =
    HasFlag st.upstreams (name_for ing p.backend) true
    ⊎ Serves st'.servers (server_key (host_of r) st.servers) p

abbrev pub AreServed : Stage → Stage → Ingress → Type 0
AreServed st st' ing = All (λ r. All (IsServed st st' ing r) (elems r.http)) ing.rules

IsServed-of_placed :
    (st st' : Stage) (ing : Ingress) (r : Rule) (p : HttpPath) (b : Bool)
    → HasFlag st.upstreams (name_for ing p.backend) b
    → IsPlaced st st' ing (server_key (host_of r) st.servers) p
    → IsServed st st' ing r p
IsServed-of_placed st st' ing r p true flag placed = inl flag
IsServed-of_placed st st' ing r p false flag placed = inr (placed flag)

paths-IsServed :
    (st st' : Stage) (ing : Ingress) (r : Rule) (ps : List HttpPath)
    → All (IsNameable st ing) ps
    → All (IsPlaced st st' ing (server_key (host_of r) st.servers)) ps
    → All (IsServed st st' ing r) ps
paths-IsServed st st' ing r [] named placed = tt
paths-IsServed st st' ing r (p ∷ ps) named placed =
    let flag = member-flag st.upstreams (name_for ing p.backend) named.0.0 in
    (
      IsServed-of_placed st st' ing r p flag.0 flag.1 placed.0,
      paths-IsServed st st' ing r ps named.1 placed.1,
    )

rules-IsServed :
    (st st' : Stage) (ing : Ingress) (rs : List Rule)
    → AreNameable st ing rs
    → AreRulesPlaced st st' ing rs
    → All (λ r. All (IsServed st st' ing r) (elems r.http)) rs
rules-IsServed st st' ing [] named placed = tt
rules-IsServed st st' ing (r ∷ rs) named placed = (
  paths-IsServed st st' ing r (elems r.http) named.0 placed.0,
  rules-IsServed st st' ing rs named.1 placed.1,
)

ingresses-AreServed :
    (st st' : Stage) (ings : List Ingress)
    → All (λ ing. AreNameable st ing ing.rules) ings
    → All (IsIngressPlaced st st') ings
    → All (AreServed st st') ings
ingresses-AreServed st st' [] named placed = tt
ingresses-AreServed st st' (ing ∷ ings) named placed = (
  rules-IsServed st st' ing ing.rules named.0 placed.0,
  ingresses-AreServed st st' ings named.1 placed.1,
)

-- If no stored certificate is nil and no path has an upstream with the name of the default upstream,
-- createServers returns, and so does the loop over the ingresses that follows it. After the loop,
-- each path of each ingress whose upstream takes a server has a location with its path and its type,
-- in the server of its host, or in the server "_" if its host has none.
pub every_path_is_placed :
    (Sets : StringSets) (N : Names) (S : StoreView) (C : CertificateView) (settings : Settings)
    (location_only : Bool) (fresh : String → ℕ) (du : Backend) (ings : List Ingress)
    → ((a : ℕ) → C.has_certificate a ≡ true)
    → All AvoidsDefault ings
    → (servers : Map Site) × (create_servers Sets C settings fresh ings
          (create_upstreams N S fresh ings du)
          du
        ≡ some servers)
      × (placed : Stage) × (place_ingresses location_only ings
            (begun servers (create_upstreams N S fresh ings du))
          ≡ some placed)
      × All (AreServed (begun servers (create_upstreams N S fresh ings du)) placed) ings
every_path_is_placed Sets N S C settings location_only fresh du ings held avoids =
    let upstreams = create_upstreams N S fresh ings du in
    let made = create_servers_total Sets C settings fresh ings upstreams du held in
    let start = begun made.0 upstreams in
    let named =
      ingresses-AreNameable start ings (create_upstreams_complete N S fresh ings du).1 avoids in
    let end = Ends-returns (place_ingresses location_only ings start) _ (
      place_ingresses-Steps location_only ings start
        (record {
          has_default = made.3;
          writable =
              create_upstreams-AllFound N S fresh IsWritable (default_upstream-IsWritable N S)
                (path_upstream-IsWritable N S) ings du (λ other. cc);
        })
        named) in
    (made.0, made.1, end.0, end.1, ingresses-AreServed start end.0 ings named end.2.1)
