-- ===== src/Annotations/GlobalRateLimit.antt =====
-- internal/ingress/annotations/globalratelimit/main.go: `Config` and `Equal`.
use ingress_nginx.Prelude.{
  Bool, IsEquiv, Slice, String, [], all_agree, equiv_rules, int_eq, len, nat_eq, none, on, pos,
  string_eq, via, ℤ, ◌∷◌,
}
use ingress_nginx.Sets.{string_elements_match}
use ingress_nginx.Sets.Laws.{string_elements_match-IsEquiv}

pub record Config : Type 0 where
  pub namespace : String
  pub limit : ℤ
  pub window_size : ℤ
  pub key : String
  pub ignored_cidrs : Slice String

-- The zero value.
abbrev pub zero_config : Config
zero_config = record {
  namespace = "";
  limit = pos 0;
  window_size = pos 0;
  key = "";
  ignored_cidrs = none;
}

unfoldable pub equal : Config → Config → Bool
equal = all_agree (
    on (λ c. c.namespace)
    ∷ on (λ c. c.limit)
    ∷ on (λ c. c.window_size)
    ∷ on (λ c. c.key)
    ∷ on (λ c. len c.ignored_cidrs)
    ∷ via string_elements_match (λ c. c.ignored_cidrs)
    ∷ [])

pub equal-IsEquiv : IsEquiv equal
unfolding equal
equal-IsEquiv = search (equiv_rules, string_elements_match-IsEquiv) depth 30
