-- ===== src/Annotations/InfluxDb.antt =====
-- internal/ingress/annotations/influxdb/main.go: `Config` and `Equal`.
use ingress_nginx.Prelude.{
  Bool, IsEquiv, String, [], all_agree, bool_eq, equiv_rules, false, on, string_eq, ◌∷◌,
}

pub record Config : Type 0 where
  pub influxdb_enabled : Bool
  pub influxdb_measurement : String
  pub influxdb_port : String
  pub influxdb_host : String
  pub influxdb_server_name : String

-- The zero value.
abbrev pub zero_config : Config
zero_config = record {
  influxdb_enabled = false;
  influxdb_measurement = "";
  influxdb_port = "";
  influxdb_host = "";
  influxdb_server_name = "";
}

unfoldable pub equal : Config → Config → Bool
equal = all_agree (
    on (λ c. c.influxdb_enabled)
    ∷ on (λ c. c.influxdb_port)
    ∷ on (λ c. c.influxdb_host)
    ∷ on (λ c. c.influxdb_server_name)
    ∷ [])

pub equal-IsEquiv : IsEquiv equal
unfolding equal
equal-IsEquiv = search equiv_rules depth 30
