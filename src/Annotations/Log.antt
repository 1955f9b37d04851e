-- ===== src/Annotations/Log.antt =====
-- internal/ingress/annotations/log/main.go: `Config` and `Equal`.
use ingress_nginx.Prelude.{Bool, IsEquiv, [], all_agree, bool_eq, equiv_rules, false, on, ◌∷◌}

pub record Config : Type 0 where
  pub access : Bool
  pub rewrite : Bool

-- The zero value.
abbrev pub zero_config : Config
zero_config = record { access = false; rewrite = false }

unfoldable pub equal : Config → Config → Bool
equal = all_agree (on (λ c. c.access) ∷ on (λ c. c.rewrite) ∷ [])

pub equal-IsEquiv : IsEquiv equal
unfolding equal
equal-IsEquiv = search equiv_rules depth 30
