-- ===== src/Controller/Upstreams/Named.antt =====
-- Every upstream that an ingress names is made, and stands under its own name.
use ingress_nginx.Prelude.{ℕ, true, some, List, String, string_eq, ◌≡◌, arith, eq_refl}
use ingress_nginx.Api.{IngressBackend}
use ingress_nginx.Maps.{Map, get, put, member, get-put}
use ingress_nginx.Types.Backend.{Backend}
use ingress_nginx.Types.Ingress.{Ingress}
use ingress_nginx.Controller.Endpoints.{Names}
use ingress_nginx.Controller.Services.{StoreView}
use ingress_nginx.Controller.Upstreams.Made.{create_upstreams-AllFound}
use ingress_nginx.Controller.Upstreams.{
  new_upstream, name_for, shaped, default_upstream, path_upstream, create_upstreams,
  def_upstream_name,
}

abbrev pub IsNamed : Map Backend → Type 0
IsNamed m = (k : String) (u : Backend) → get k m ≡ some u → u.name ≡ k

-- No upstream of `m` is missing in `m'`.
abbrev pub Extends : Map Backend → Map Backend → Type 0
Extends m m' = (k : String) → member k m ≡ true → member k m' ≡ true

pub put-Extends : (k : String) (u : Backend) (m : Map Backend) → Extends m (put k u m)
put-Extends k u m j h = ground (arith, get-put k j u m)

pub put-member : (k : String) (u : Backend) (m : Map Backend) → member k (put k u m) ≡ true
put-member k u m = ground (arith, get-put k k u m, eq_refl k)

module _ (N : Names) (S : StoreView) where
  open S use {get_service}

  shaped-name :
      (ing : Ingress) (b : IngressBackend) (u : Backend) → (shaped N S ing b u).name ≡ u.name
  unfolding shaped
  shaped-name ing b u = ground arith

  default_upstream-name :
      (a : ℕ) (ing : Ingress) (b : IngressBackend)
      → (default_upstream N S a ing b).name ≡ name_for ing b
  unfolding default_upstream new_upstream
  default_upstream-name a ing b =
      ground (arith, shaped-name ing b (new_upstream a (name_for ing b)))

  path_upstream-name :
      (a : ℕ) (ing : Ingress) (b : IngressBackend)
      → (path_upstream N S a ing b).name ≡ name_for ing b
  unfolding path_upstream new_upstream
  path_upstream-name a ing b = ground (
    arith,
    shaped-name ing b (record (new_upstream a (name_for ing b)) { port = b.service_port }),
  )

  -- If the default upstream has its name, every upstream of the map stands under its own name.
  pub create_upstreams-IsNamed :
      (fresh : String → ℕ) (ings : List Ingress) (du : Backend)
      → du.name ≡ def_upstream_name
      → IsNamed (create_upstreams N S fresh ings du)
  create_upstreams-IsNamed fresh =
      create_upstreams-AllFound N S fresh (λ k u. u.name ≡ k) default_upstream-name
        path_upstream-name
