-- ===== src/Annotations/Redirect.antt =====
-- internal/ingress/annotations/redirect/redirect.go: `Config` and `Equal`.
use ingress_nginx.Prelude.{
  Bool, IsEquiv, String, [], all_agree, bool_eq, equiv_rules, false, int_eq, on, pos, string_eq, ℤ,
  ◌∷◌,
}

pub record Config : Type 0 where
  pub url : String
  pub code : ℤ
  pub from_to_www : Bool

-- The zero value.
abbrev pub zero_config : Config
zero_config = record { url = ""; code = pos 0; from_to_www = false }

unfoldable pub equal : Config → Config → Bool
equal = all_agree (on (λ c. c.url) ∷ on (λ c. c.code) ∷ on (λ c. c.from_to_www) ∷ [])

pub equal-IsEquiv : IsEquiv equal
unfolding equal
equal-IsEquiv = search equiv_rules depth 30
