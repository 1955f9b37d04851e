-- ===== src/Annotations/Canary.antt =====
-- internal/ingress/annotations/canary/main.go: `Config`.
use ingress_nginx.Prelude.{Bool, String, ℤ, pos, false}

pub record Config : Type 0 where
  pub enabled : Bool
  pub weight : ℤ
  pub header : String
  pub header_value : String
  pub header_pattern : String
  pub cookie : String

-- The zero value.
abbrev pub zero_config : Config
zero_config = record {
  enabled = false;
  weight = pos 0;
  header = "";
  header_value = "";
  header_pattern = "";
  cookie = "";
}
