-- ===== src/Controller/Overlap/Placed.antt =====
-- Where the ingresses that `ingressForHostPath` returns come from.
use ingress_nginx.Prelude.{
  ℕ, none, some, List, [], ◌∷◌, ◌++◌, elems, String, ◌==◌, string_eq, ◌≡◌, refl, sym, subst, inl,
  inr, arith, Bool-cases, Option-cases, eq-of-test, Some, Some-append,
}
use ingress_nginx.Api.{Ref}
use ingress_nginx.Types.Heap.{Heap}
use ingress_nginx.Types.Ingress.{Ingress}
use ingress_nginx.Types.Server.{Server}
use ingress_nginx.Controller.Overlap.{ingresses_at, ingress_for_host_path}

module _ (H : Heap) where
  -- A location with a path, of an ingress, that is not nil.
  pub record IsPlaced (path : String) (e : Ingress) (l : Ref) : Type 0 where
    pub address : ℕ
    pub at : l ≡ some address
    pub same_path : (H.location address).path ≡ path
    pub owner : (H.location address).ingress ≡ some e

  -- A server with a host name and such a location.
  abbrev pub Serves : String → String → Ingress → Server → Type 0
  Serves host path e s = (host ≡ s.hostname) × Some (IsPlaced path e) (elems s.locations)

  ingresses_at-IsPlaced :
      (path : String) (ls : List Ref) (es : List Ingress) (e : Ingress)
      → ingresses_at H path ls ≡ some es
      → Some (λ f. f ≡ e) es
      → Some (IsPlaced path e) ls
  unfolding ingresses_at
  ingresses_at-IsPlaced path [] es e h m =
      let none_left : [] ≡ es = ground arith in rw (← none_left) at m
  ingresses_at-IsPlaced path (none ∷ ls) es e h m = cc
  ingresses_at-IsPlaced path (some a ∷ ls) es e h m =
      elim (Bool-cases ((H.location a).path == path)) [
        | inr other ↦ inr (ingresses_at-IsPlaced path ls es e (ground arith) m)
        | inl here ↦ elim (Option-cases (H.location a).ingress) [
          | inl nil ↦ ground arith
          | inr (i, owner) ↦ elim (Option-cases (ingresses_at H path ls)) [
            | inl nil ↦ ground arith
            | inr (is, rest) ↦
                let split : i ∷ is ≡ es = ground arith in
                let m' = subst (Some (λ f. f ≡ e)) (sym split) m in
                elim m' [
                  | inl first ↦ inl (record {
                    address = a;
                    at = refl;
                    same_path = eq-of-test (H.location a).path path here;
                    owner = rw (← first) owner;
                  })
                  | inr later ↦ inr (ingresses_at-IsPlaced path ls is e rest later)
                ]
          ]
        ]
      ]

  pub ingress_for_host_path-Serves :
      (host path : String) (ss : List Server) (es : List Ingress) (e : Ingress)
      → ingress_for_host_path H host path ss ≡ some es
      → Some (λ f. f ≡ e) es
      → Some (Serves host path e) ss
  unfolding ingress_for_host_path
  ingress_for_host_path-Serves host path [] es e h m =
      let none_left : [] ≡ es = ground arith in rw (← none_left) at m
  ingress_for_host_path-Serves host path (s ∷ ss) es e h m =
      elim (Bool-cases (host == s.hostname)) [
        | inr other ↦ inr (ingress_for_host_path-Serves host path ss es e (ground arith) m)
        | inl here ↦ elim (Option-cases (ingresses_at H path (elems s.locations))) [
          | inl nil ↦ ground arith
          | inr (is, at_server) ↦ elim (Option-cases (ingress_for_host_path H host path ss)) [
            | inl nil ↦ ground arith
            | inr (js, rest) ↦
                let split : is ++ js ≡ es = ground arith in
                let m' = subst (Some (λ f. f ≡ e)) (sym split) m in
                elim (Some-append (λ f. f ≡ e) is js m') [
                  | inl first ↦ inl (
                    eq-of-test host s.hostname here,
                    ingresses_at-IsPlaced path (elems s.locations) is e at_server first,
                  )
                  | inr later ↦ inr (ingress_for_host_path-Serves host path ss js e rest later)
                ]
          ]
        ]
      ]
