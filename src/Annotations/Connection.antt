-- ===== src/Annotations/Connection.antt =====
-- internal/ingress/annotations/connection/main.go: `Config` and `Equal`.
use ingress_nginx.Prelude.{
  Bool, IsEquiv, String, [], all_agree, bool_eq, equiv_rules, false, on, string_eq, ◌∷◌,
}

pub record Config : Type 0 where
  pub header : String
  pub enabled : Bool

-- The zero value.
abbrev pub zero_config : Config
zero_config = record { header = ""; enabled = false }

unfoldable pub equal : Config → Config → Bool
equal = all_agree (on (λ c. c.enabled) ∷ on (λ c. c.header) ∷ [])

pub equal-IsEquiv : IsEquiv equal
unfolding equal
equal-IsEquiv = search equiv_rules depth 30
