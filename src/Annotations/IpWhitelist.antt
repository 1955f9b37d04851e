-- ===== src/Annotations/IpWhitelist.antt =====
-- internal/ingress/annotations/ipwhitelist/main.go: `SourceRange` and `Equal`.
use ingress_nginx.Prelude.{Bool, IsEquiv, Slice, String, [], all_agree, equiv_rules, none, via, ◌∷◌}
use ingress_nginx.Sets.{string_elements_match}
use ingress_nginx.Sets.Laws.{string_elements_match-IsEquiv}

pub record SourceRange : Type 0 where
  pub cidr : Slice String

-- The zero value.
abbrev pub zero_source_range : SourceRange
zero_source_range = record { cidr = none }

unfoldable pub equal : SourceRange → SourceRange → Bool
equal = all_agree (via string_elements_match (λ c. c.cidr) ∷ [])

pub equal-IsEquiv : IsEquiv equal
unfolding equal
equal-IsEquiv = search (equiv_rules, string_elements_match-IsEquiv) depth 30
