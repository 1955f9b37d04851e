-- ===== src/Annotations/OpenTracing.antt =====
-- internal/ingress/annotations/opentracing/main.go: `Config` and `Equal`.
use ingress_nginx.Prelude.{Bool, IsEquiv, [], all_agree, bool_eq, equiv_rules, false, on, ◌∷◌}

pub record Config : Type 0 where
  pub enabled : Bool
  pub set : Bool

-- The zero value.
abbrev pub zero_config : Config
zero_config = record { enabled = false; set = false }

unfoldable pub equal : Config → Config → Bool
equal = all_agree (on (λ c. c.set) ∷ on (λ c. c.enabled) ∷ [])

pub equal-IsEquiv : IsEquiv equal
unfolding equal
equal-IsEquiv = search equiv_rules depth 30
