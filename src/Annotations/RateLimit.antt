-- ===== src/Annotations/RateLimit.antt =====
-- internal/ingress/annotations/ratelimit/main.go: `Config` and `Equal`.
use ingress_nginx.Prelude.{
  Bool, IsEquiv, Slice, String, [], all_agree, equiv_rules, int_eq, len, nat_eq, none, on, pos,
  string_eq, via, ℤ, ◌∷◌,
}
use ingress_nginx.Sets.{string_elements_match}
use ingress_nginx.Sets.Laws.{string_elements_match-IsEquiv}

pub record Zone : Type 0 where
  pub name : String
  pub limit : ℤ
  pub burst : ℤ
  pub shared_size : ℤ

-- The zero value.
abbrev pub zero_zone : Zone
zero_zone = record { name = ""; limit = pos 0; burst = pos 0; shared_size = pos 0 }

unfoldable pub zone_equal : Zone → Zone → Bool
zone_equal =
    all_agree
      (on (λ c. c.name) ∷ on (λ c. c.limit) ∷ on (λ c. c.burst) ∷ on (λ c. c.shared_size) ∷ [])

pub zone_equal-IsEquiv : IsEquiv zone_equal
unfolding zone_equal
zone_equal-IsEquiv = search equiv_rules depth 30

pub record Config : Type 0 where
  pub connections : Zone
  pub rps : Zone
  pub rpm : Zone
  pub limit_rate : ℤ
  pub limit_rate_after : ℤ
  pub name : String
  pub id : String
  pub whitelist : Slice String

-- The zero value.
abbrev pub zero_config : Config
zero_config = record {
  connections = zero_zone;
  rps = zero_zone;
  rpm = zero_zone;
  limit_rate = pos 0;
  limit_rate_after = pos 0;
  name = "";
  id = "";
  whitelist = none;
}

unfoldable pub equal : Config → Config → Bool
equal = all_agree (
    via zone_equal (λ c. c.connections)
    ∷ via zone_equal (λ c. c.rpm)
    ∷ via zone_equal (λ c. c.rps)
    ∷ on (λ c. c.limit_rate)
    ∷ on (λ c. c.limit_rate_after)
    ∷ on (λ c. c.id)
    ∷ on (λ c. c.name)
    ∷ on (λ c. len c.whitelist)
    ∷ via string_elements_match (λ c. c.whitelist)
    ∷ [])

pub equal-IsEquiv : IsEquiv equal
unfolding equal
equal-IsEquiv = search (equiv_rules, string_elements_match-IsEquiv, zone_equal-IsEquiv) depth 30
