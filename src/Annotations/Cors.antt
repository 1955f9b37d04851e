-- ===== src/Annotations/Cors.antt =====
-- internal/ingress/annotations/cors/main.go: `Config` and `Equal`.
use ingress_nginx.Prelude.{
  Bool, IsEquiv, String, [], all_agree, bool_eq, equiv_rules, false, int_eq, on, pos, string_eq, ℤ,
  ◌∷◌,
}

pub record Config : Type 0 where
  pub cors_enabled : Bool
  pub cors_allow_origin : String
  pub cors_allow_methods : String
  pub cors_allow_headers : String
  pub cors_allow_credentials : Bool
  pub cors_expose_headers : String
  pub cors_max_age : ℤ

-- The zero value.
abbrev pub zero_config : Config
zero_config = record {
  cors_enabled = false;
  cors_allow_origin = "";
  cors_allow_methods = "";
  cors_allow_headers = "";
  cors_allow_credentials = false;
  cors_expose_headers = "";
  cors_max_age = pos 0;
}

unfoldable pub equal : Config → Config → Bool
equal = all_agree (
    on (λ c. c.cors_max_age)
    ∷ on (λ c. c.cors_expose_headers)
    ∷ on (λ c. c.cors_allow_credentials)
    ∷ on (λ c. c.cors_allow_headers)
    ∷ on (λ c. c.cors_allow_methods)
    ∷ on (λ c. c.cors_allow_origin)
    ∷ on (λ c. c.cors_enabled)
    ∷ [])

pub equal-IsEquiv : IsEquiv equal
unfolding equal
equal-IsEquiv = search equiv_rules depth 30
