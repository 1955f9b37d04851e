-- ===== src/Status.antt =====
-- internal/ingress/status/status.go: the addresses in the status of the ingresses.
pub mod Order
pub mod Skipped
use ingress_nginx.Prelude.{
  Bool, true, false, ◌&&◌, ◌||◌, List, [], ◌∷◌, String, ◌==◌, string_eq, if◌then◌else◌,
}
use ingress_nginx.Sorting.{slice_stable, text_less}

-- apiv1.LoadBalancerIngress, with the two fields that are read
pub record LoadBalancerIngress : Type 0 where
  pub ip : String
  pub hostname : String

-- `lessLoadBalancerIngress`, on the elements at the two indices
unfoldable pub less_load_balancer_ingress : LoadBalancerIngress → LoadBalancerIngress → Bool
unfolding text_less
less_load_balancer_ingress a b =
    text_less a.hostname b.hostname || (a.hostname == b.hostname && text_less a.ip b.ip)

unfoldable pub sort_status : List LoadBalancerIngress → List LoadBalancerIngress
unfolding slice_stable less_load_balancer_ingress
sort_status = slice_stable less_load_balancer_ingress

-- `sliceToStatus`; `is_ip` says whether net.ParseIP of the package net succeeds.
unfoldable pub to_points : (String → Bool) → List String → List LoadBalancerIngress
to_points is_ip [] = []
to_points is_ip (ep ∷ eps) =
    (if is_ip ep then record { ip = ep; hostname = "" } else record { ip = ""; hostname = ep })
    ∷ to_points is_ip eps

unfoldable pub slice_to_status : (String → Bool) → List String → List LoadBalancerIngress
unfolding to_points slice_stable text_less
slice_to_status is_ip endpoints =
    slice_stable (λ a b. text_less a.ip b.ip) (to_points is_ip endpoints)

-- `ingressSliceEqual`
unfoldable pub ingress_slice_equal : List LoadBalancerIngress → List LoadBalancerIngress → Bool
ingress_slice_equal [] [] = true
ingress_slice_equal (a ∷ lhs) (b ∷ rhs) =
    a.ip == b.ip && a.hostname == b.hostname && ingress_slice_equal lhs rhs
ingress_slice_equal [] (b ∷ rhs) = false
ingress_slice_equal (a ∷ lhs) [] = false

-- Whether updateStatus leaves an ingress with the status `current` alone, for the new status `points`.
unfoldable pub skips_update : List LoadBalancerIngress → List LoadBalancerIngress → Bool
unfolding ingress_slice_equal sort_status
skips_update points current = ingress_slice_equal (sort_status current) (sort_status points)

-- The loop of updateStatus over the statuses of the ingresses: the places of those that are updated.
unfoldable pub updated {ℓ} :
    {I : Type ℓ} → (I → List LoadBalancerIngress) → List LoadBalancerIngress → List I → List I
unfolding skips_update
updated status_of points [] = []
updated status_of points (i ∷ is) =
    let rest = updated status_of points is in
    if skips_update points (status_of i) then rest else i ∷ rest
