-- ===== src/Status/Skipped.antt =====
-- updateStatus leaves an ingress alone just if its addresses are the new ones in some order.
use mathlib.Core.List.{Perm}
use mathlib.Core.List.Perm
use mathlib.Core.Logic.{∥∥₁_elim}
use mathlib.Core.Bool.{Bool-set}
use ingress_nginx.Prelude.{
  true, false, List, [], ◌∷◌, ◌==◌, string_eq, ◌≡◌, ◌↔◌, refl, sym, ◌∙◌, Bool-cases, inl, inr,
  subst, arith, eq-of-test, test-of-eq, eq_refl,
}
use ingress_nginx.Sorting.{text_less}
use ingress_nginx.Sorting.Laws.{text_less-IsStrictWeak, slice_stable-permutes}
use ingress_nginx.Status.{
  LoadBalancerIngress, less_load_balancer_ingress, sort_status, ingress_slice_equal, skips_update,
}
use ingress_nginx.Status.Order.{IsTotal, text_less-alike, slice_stable-Permᴰ}

less-asymmetric :
    (a b : LoadBalancerIngress)
    → less_load_balancer_ingress a b ≡ true
    → less_load_balancer_ingress b a ≡ false
unfolding less_load_balancer_ingress
less-asymmetric a b h = ground (
  arith,
  h,
  text_less-IsStrictWeak.asymmetric a.hostname b.hostname,
  text_less-IsStrictWeak.asymmetric a.ip b.ip,
  text_less-IsStrictWeak.asymmetric b.hostname a.hostname,
  eq-of-test a.hostname b.hostname,
  eq-of-test b.hostname a.hostname,
)

less-alike :
    (a b : LoadBalancerIngress)
    → less_load_balancer_ingress a b ≡ false
    → less_load_balancer_ingress b a ≡ false
    → a ≡ b
unfolding less_load_balancer_ingress
less-alike a b h k =
    let host : a.hostname ≡ b.hostname =
      text_less-alike a.hostname b.hostname (ground (arith, h)) (ground (arith, k)) in
    let same = test-of-eq a.hostname b.hostname host in
    let back = test-of-eq b.hostname a.hostname (sym host) in
    let ip : a.ip ≡ b.ip =
      text_less-alike a.ip b.ip (ground (arith, h, same)) (ground (arith, k, back)) in
    λ i. record { ip = ip i; hostname = host i }

less-passes :
    (a b c : LoadBalancerIngress)
    → less_load_balancer_ingress b a ≡ false
    → less_load_balancer_ingress c b ≡ false
    → less_load_balancer_ingress c a ≡ false
unfolding less_load_balancer_ingress
less-passes a b c h k =
    let order = text_less-IsStrictWeak in
    let not_b : text_less b.hostname a.hostname ≡ false = ground (arith, h) in
    let not_c : text_less c.hostname b.hostname ≡ false = ground (arith, k) in
    let not_less = order.passes a.hostname b.hostname c.hostname not_b not_c in
    elim (Bool-cases (c.hostname == a.hostname)) [
      | inr other ↦ ground (arith, not_less, other)
      | inl same ↦
          let c≡a : c.hostname ≡ a.hostname = eq-of-test c.hostname a.hostname same in
          let a_b : a.hostname ≡ b.hostname =
            text_less-alike a.hostname b.hostname
              (subst (λ t. text_less t b.hostname ≡ false) c≡a not_c) not_b in
          let b_a = test-of-eq b.hostname a.hostname (sym a_b) in
          let c_b = test-of-eq c.hostname b.hostname (c≡a ∙ a_b) in
          ground (
            arith,
            not_less,
            order.passes a.ip b.ip c.ip (ground (arith, h, b_a)) (ground (arith, k, c_b)),
          )
    ]

less-IsTotal : IsTotal less_load_balancer_ingress
less-IsTotal = record {
  weak = record { asymmetric = less-asymmetric; passes = less-passes };
  alike = less-alike;
}

equal_slices : (xs ys : List LoadBalancerIngress) → ingress_slice_equal xs ys ≡ true → xs ≡ ys
unfolding ingress_slice_equal
equal_slices [] [] h = refl
equal_slices [] (y ∷ ys) h = cc
equal_slices (x ∷ xs) [] h = cc
equal_slices (x ∷ xs) (y ∷ ys) h =
    let ip : x.ip ≡ y.ip = eq-of-test x.ip y.ip (ground (arith, h)) in
    let host : x.hostname ≡ y.hostname = eq-of-test x.hostname y.hostname (ground (arith, h)) in
    let rest : xs ≡ ys = equal_slices xs ys (ground (arith, h)) in
    λ i. record { ip = ip i; hostname = host i } ∷ rest i

slice_refl : (xs : List LoadBalancerIngress) → ingress_slice_equal xs xs ≡ true
unfolding ingress_slice_equal
slice_refl [] = refl
slice_refl (x ∷ xs) = ground (arith, eq_refl x.ip, eq_refl x.hostname, slice_refl xs)

-- updateStatus leaves an ingress alone if, and only if, the addresses of its status are the new ones in
-- some order.
pub skips_update_iff :
    (points current : List LoadBalancerIngress)
    → (skips_update points current ≡ true) ↔ Perm current points
unfolding skips_update sort_status
skips_update_iff points current = (
  λ h. Perm.trans (slice_stable-permutes less_load_balancer_ingress current) (
      subst (λ s. Perm s points) (sym (equal_slices (sort_status current) (sort_status points) h))
        (Perm.symm (slice_stable-permutes less_load_balancer_ingress points))),
  λ p. ∥∥₁_elim p (Bool-set _ _) (λ d.
      subst (λ s. ingress_slice_equal (sort_status current) s ≡ true)
        (slice_stable-Permᴰ less_load_balancer_ingress less-IsTotal current points d)
        (slice_refl (sort_status current))),
)
