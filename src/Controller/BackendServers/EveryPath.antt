-- ===== src/Controller/BackendServers/EveryPath.antt =====
-- The loops over the rules and the ingresses return, and give every path a location.
use ingress_nginx.Prelude.{
  Bool, true, not, ◌&&◌, none, some, List, [], ◌∷◌, Slice, elems, String, ◌==◌, string_eq, ◌≡◌,
  refl, subst, arith, All,
}
use ingress_nginx.Api.{Rule}
use ingress_nginx.Panics.{Ends, Ends-bind, Ends-if, Ends-weaken}
use ingress_nginx.Types.Ingress.{Ingress}
use ingress_nginx.Controller.BackendServers.{
  Stage, place_rule, place_rules, place_ingresses, server_key, is_nil,
}
use ingress_nginx.Controller.BackendServers.Progress.{Progress, IsReady}
use ingress_nginx.Controller.Servers.{host_of}
use ingress_nginx.Controller.Upstreams.Merging.{def_server_name}
use ingress_nginx.Controller.BackendServers.Serving.{
  Steps, Steps-refl, Steps-trans, IsNameable, AreNameable, IsPlaced, IsNameable-lasts,
  IsPlaced-earlier, IsPlaced-later, place_http-Steps, server_key-held,
}

AreNameable-lasts :
    (a b : Stage)
    → Progress a b
    → (ing : Ingress) (rs : List Rule) → AreNameable a ing rs
    → AreNameable b ing rs
AreNameable-lasts a b g ing [] h = tt
AreNameable-lasts a b g ing (r ∷ rs) h =
    (IsNameable-lasts a b g ing (elems r.http) h.0, AreNameable-lasts a b g ing rs h.1)

-- All paths of the rule are placed, in the server of its host.
abbrev pub IsRulePlaced : Stage → Stage → Ingress → Rule → Type 0
IsRulePlaced st st' ing r =
    All (IsPlaced st st' ing (server_key (host_of r) st.servers)) (elems r.http)

nil-All {ℓ} : {A : Type ℓ} (P : A → Type 0) (s : Slice A) → is_nil s ≡ true → All P (elems s)
nil-All P none h = tt
nil-All P (some xs) h = ground (arith, h)

place_rule-Steps :
    (location_only : Bool) (ing : Ingress) (r : Rule) (st : Stage)
    → IsReady st
    → All (IsNameable st ing) (elems r.http)
    → Ends ⊥ (place_rule location_only ing r st) (λ st'. Steps st st' × IsRulePlaced st st' ing r)
unfolding place_rule
place_rule-Steps location_only ing r st ready nameable =
    Ends-if ⊥ (is_nil r.http && not (host_of r == def_server_name)) (some st) _ _
      (λ skipped. (Steps-refl st ready, nil-All _ r.http (ground (arith, skipped))))
      (λ taken.
        place_http-Steps location_only ing (host_of r) (server_key (host_of r) st.servers) r.http st
          ready (server_key-held (host_of r) st.servers ready.has_default) nameable)

key-lasts :
    (a b : Stage)
    → Progress a b
    → (host : String) → server_key host b.servers ≡ server_key host a.servers
key-lasts a b g host = rw (g.hosts host) refl

abbrev pub AreRulesPlaced : Stage → Stage → Ingress → List Rule → Type 0
AreRulesPlaced st st' ing rs = All (IsRulePlaced st st' ing) rs

AreRulesPlaced-earlier :
    (a b c : Stage)
    → Progress a b
    → (ing : Ingress) (rs : List Rule) → AreRulesPlaced b c ing rs
    → AreRulesPlaced a c ing rs
AreRulesPlaced-earlier a b c g ing [] h = tt
AreRulesPlaced-earlier a b c g ing (r ∷ rs) h = (
  IsPlaced-earlier a b c g ing (server_key (host_of r) a.servers) (elems r.http)
      (subst (λ k. All (IsPlaced b c ing k) (elems r.http)) (key-lasts a b g (host_of r)) h.0),
  AreRulesPlaced-earlier a b c g ing rs h.1,
)

AreRulesPlaced-later :
    (a b c : Stage)
    → Progress b c
    → (ing : Ingress) (rs : List Rule) → AreRulesPlaced a b ing rs
    → AreRulesPlaced a c ing rs
AreRulesPlaced-later a b c g ing [] h = tt
AreRulesPlaced-later a b c g ing (r ∷ rs) h = (
  IsPlaced-later a b c g ing (server_key (host_of r) a.servers) (elems r.http) h.0,
  AreRulesPlaced-later a b c g ing rs h.1,
)

place_rules-Steps :
    (location_only : Bool) (ing : Ingress) (rs : List Rule) (st : Stage)
    → IsReady st
    → AreNameable st ing rs
    → Ends ⊥
        (place_rules location_only ing rs st)
        (λ st'. Steps st st' × AreRulesPlaced st st' ing rs)
unfolding place_rules
place_rules-Steps location_only ing [] st ready nameable = (Steps-refl st ready, tt)
place_rules-Steps location_only ing (r ∷ rs) st ready nameable =
    Ends-bind ⊥ (place_rule location_only ing r st) _ (λ a. Steps st a × IsRulePlaced st a ing r)
      (λ b. Steps st b × AreRulesPlaced st b ing (r ∷ rs))
      (place_rule-Steps location_only ing r st ready nameable.0)
      (λ a one.
        Ends-weaken ⊥ (place_rules location_only ing rs a)
          (λ b. Steps a b × AreRulesPlaced a b ing rs)
          (λ b. Steps st b × AreRulesPlaced st b ing (r ∷ rs))
          (place_rules-Steps location_only ing rs a one.0.1
            (AreNameable-lasts st a one.0.0 ing rs nameable.1))
          (λ b two. (
            Steps-trans st a b one.0 two.0,
            (
              IsPlaced-later st a b two.0.0 ing (server_key (host_of r) st.servers) (elems r.http)
                  one.1,
              AreRulesPlaced-earlier st a b one.0.0 ing rs two.1,
            ),
          )))

-- All paths of the ingress are placed.
abbrev pub IsIngressPlaced : Stage → Stage → Ingress → Type 0
IsIngressPlaced st st' ing = AreRulesPlaced st st' ing ing.rules

ingresses-nameable-lasts :
    (a b : Stage)
    → Progress a b
    → (ings : List Ingress) → All (λ ing. AreNameable a ing ing.rules) ings
    → All (λ ing. AreNameable b ing ing.rules) ings
ingresses-nameable-lasts a b g [] h = tt
ingresses-nameable-lasts a b g (ing ∷ ings) h =
    (AreNameable-lasts a b g ing ing.rules h.0, ingresses-nameable-lasts a b g ings h.1)

ingresses-placed-earlier :
    (a b c : Stage)
    → Progress a b
    → (ings : List Ingress) → All (IsIngressPlaced b c) ings
    → All (IsIngressPlaced a c) ings
ingresses-placed-earlier a b c g [] h = tt
ingresses-placed-earlier a b c g (ing ∷ ings) h =
    (AreRulesPlaced-earlier a b c g ing ing.rules h.0, ingresses-placed-earlier a b c g ings h.1)

pub place_ingresses-Steps :
    (location_only : Bool) (ings : List Ingress) (st : Stage)
    → IsReady st
    → All (λ ing. AreNameable st ing ing.rules) ings
    → Ends ⊥
        (place_ingresses location_only ings st)
        (λ st'. Steps st st' × All (IsIngressPlaced st st') ings)
unfolding place_ingresses
place_ingresses-Steps location_only [] st ready nameable = (Steps-refl st ready, tt)
place_ingresses-Steps location_only (ing ∷ ings) st ready nameable =
    Ends-bind ⊥ (place_rules location_only ing ing.rules st) _
      (λ a. Steps st a × IsIngressPlaced st a ing)
      (λ b. Steps st b × All (IsIngressPlaced st b) (ing ∷ ings))
      (place_rules-Steps location_only ing ing.rules st ready nameable.0)
      (λ a one.
        Ends-weaken ⊥ (place_ingresses location_only ings a)
          (λ b. Steps a b × All (IsIngressPlaced a b) ings)
          (λ b. Steps st b × All (IsIngressPlaced st b) (ing ∷ ings))
          (place_ingresses-Steps location_only ings a one.0.1
            (ingresses-nameable-lasts st a one.0.0 ings nameable.1))
          (λ b two. (
            Steps-trans st a b one.0 two.0,
            (
              AreRulesPlaced-later st a b two.0.0 ing ing.rules one.1,
              ingresses-placed-earlier st a b one.0.0 ings two.1,
            ),
          )))
