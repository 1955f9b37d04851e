-- ===== src/Annotations/ModSecurity.antt =====
-- internal/ingress/annotations/modsecurity/main.go: `Config` and `Equal`.
use ingress_nginx.Prelude.{
  Bool, IsEquiv, String, [], all_agree, bool_eq, equiv_rules, false, on, string_eq, ◌∷◌,
}

pub record Config : Type 0 where
  pub enable : Bool
  pub enable_set : Bool
  pub owasp_rules : Bool
  pub transaction_id : String
  pub snippet : String

-- The zero value.
abbrev pub zero_config : Config
zero_config = record {
  enable = false;
  enable_set = false;
  owasp_rules = false;
  transaction_id = "";
  snippet = "";
}

unfoldable pub equal : Config → Config → Bool
equal = all_agree (
    on (λ c. c.enable)
    ∷ on (λ c. c.enable_set)
    ∷ on (λ c. c.owasp_rules)
    ∷ on (λ c. c.transaction_id)
    ∷ on (λ c. c.snippet)
    ∷ [])

pub equal-IsEquiv : IsEquiv equal
unfolding equal
equal-IsEquiv = search equiv_rules depth 30
