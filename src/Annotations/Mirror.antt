-- ===== src/Annotations/Mirror.antt =====
-- internal/ingress/annotations/mirror/main.go: `Config` and `Equal`.
use ingress_nginx.Prelude.{Bool, IsEquiv, String, [], all_agree, equiv_rules, on, string_eq, ◌∷◌}

pub record Config : Type 0 where
  pub source : String
  pub request_body : String
  pub target : String

-- The zero value.
abbrev pub zero_config : Config
zero_config = record { source = ""; request_body = ""; target = "" }

unfoldable pub equal : Config → Config → Bool
equal = all_agree (on (λ c. c.source) ∷ on (λ c. c.request_body) ∷ on (λ c. c.target) ∷ [])

pub equal-IsEquiv : IsEquiv equal
unfolding equal
equal-IsEquiv = search equiv_rules depth 30
