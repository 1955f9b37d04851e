-- ===== src/Annotations/UpstreamHashBy.antt =====
-- internal/ingress/annotations/upstreamhashby/main.go: `Config`.
use ingress_nginx.Prelude.{Bool, String, ℤ, pos, false}

pub record Config : Type 0 where
  pub upstream_hash_by : String
  pub upstream_hash_by_subset : Bool
  pub upstream_hash_by_subset_size : ℤ

-- The zero value.
abbrev pub zero_config : Config
zero_config = record {
  upstream_hash_by = "";
  upstream_hash_by_subset = false;
  upstream_hash_by_subset_size = pos 0;
}
