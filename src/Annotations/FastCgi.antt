-- ===== src/Annotations/FastCgi.antt =====
-- internal/ingress/annotations/fastcgi/main.go: `Config` and `Equal`.
use ingress_nginx.Prelude.{
  Bool, IsEquiv, List, Option, String, [], all_agree, equiv_rules, none, on, string_eq, via, ◌∷◌,
}
use ingress_nginx.Sets.{compare}
use ingress_nginx.Sets.Laws.{compare-IsEquiv}

-- reflect.DeepEqual on a map: both are nil, or neither is and they have the same entries. A map is
-- the list of its entries, whose keys differ.
pub deep_equal : Option (List (String × String)) → Option (List (String × String)) → Bool
deep_equal = compare (all_agree (on (λ e. e.0) ∷ on (λ e. e.1) ∷ []))

pub deep_equal-IsEquiv : IsEquiv deep_equal
unfolding deep_equal
deep_equal-IsEquiv = search (equiv_rules, compare-IsEquiv) depth 30

pub record Config : Type 0 where
  pub index : String
  pub params : Option (List (String × String))

-- The zero value.
abbrev pub zero_config : Config
zero_config = record { index = ""; params = none }

unfoldable pub equal : Config → Config → Bool
equal = all_agree (on (λ c. c.index) ∷ via deep_equal (λ c. c.params) ∷ [])

pub equal-IsEquiv : IsEquiv equal
unfolding equal
equal-IsEquiv = search (equiv_rules, deep_equal-IsEquiv) depth 30
