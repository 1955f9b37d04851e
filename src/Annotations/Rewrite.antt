-- ===== src/Annotations/Rewrite.antt =====
-- internal/ingress/annotations/rewrite/main.go: `Config` and `Equal`.
use ingress_nginx.Prelude.{
  Bool, IsEquiv, String, [], all_agree, bool_eq, equiv_rules, false, on, string_eq, ◌∷◌,
}

pub record Config : Type 0 where
  pub target : String
  pub ssl_redirect : Bool
  pub force_ssl_redirect : Bool
  pub app_root : String
  pub use_regex : Bool

-- The zero value.
abbrev pub zero_config : Config
zero_config = record {
  target = "";
  ssl_redirect = false;
  force_ssl_redirect = false;
  app_root = "";
  use_regex = false;
}

unfoldable pub equal : Config → Config → Bool
equal = all_agree (
    on (λ c. c.target)
    ∷ on (λ c. c.ssl_redirect)
    ∷ on (λ c. c.force_ssl_redirect)
    ∷ on (λ c. c.app_root)
    ∷ on (λ c. c.use_regex)
    ∷ [])

pub equal-IsEquiv : IsEquiv equal
unfolding equal
equal-IsEquiv = search equiv_rules depth 30
