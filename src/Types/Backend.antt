-- ===== src/Types/Backend.antt =====
-- internal/ingress/types.go: `Backend` and what it holds.
use ingress_nginx.Prelude.{Bool, List, Option, Slice, String, ℤ, pos, none, false}
use ingress_nginx.Api.{Ref, IntOrString, zero_int_or_string}

pub record TrafficShapingPolicy : Type 0 where
  pub weight : ℤ
  pub header : String
  pub header_value : String
  pub header_pattern : String
  pub cookie : String

-- The zero value.
abbrev pub zero_traffic_shaping_policy : TrafficShapingPolicy
zero_traffic_shaping_policy = record {
  weight = pos 0;
  header = "";
  header_value = "";
  header_pattern = "";
  cookie = "";
}

pub record CookieSessionAffinity : Type 0 where
  pub name : String
  pub expires : String
  pub max_age : String
  pub locations : Option (List (String × Slice String))
  pub path : String
  pub same_site : String
  pub conditional_same_site_none : Bool
  pub change_on_failure : Bool

-- The zero value.
abbrev pub zero_cookie_session_affinity : CookieSessionAffinity
zero_cookie_session_affinity = record {
  name = "";
  expires = "";
  max_age = "";
  locations = none;
  path = "";
  same_site = "";
  conditional_same_site_none = false;
  change_on_failure = false;
}

pub record SessionAffinityConfig : Type 0 where
  pub affinity_type : String
  pub affinity_mode : String
  pub cookie_session_affinity : CookieSessionAffinity

-- The zero value.
abbrev pub zero_session_affinity_config : SessionAffinityConfig
zero_session_affinity_config = record {
  affinity_type = "";
  affinity_mode = "";
  cookie_session_affinity = zero_cookie_session_affinity;
}

pub record UpstreamHashByConfig : Type 0 where
  pub upstream_hash_by : String
  pub upstream_hash_by_subset : Bool
  pub upstream_hash_by_subset_size : ℤ

-- The zero value.
abbrev pub zero_upstream_hash_by_config : UpstreamHashByConfig
zero_upstream_hash_by_config = record {
  upstream_hash_by = "";
  upstream_hash_by_subset = false;
  upstream_hash_by_subset_size = pos 0;
}

pub record Endpoint : Type 0 where
  pub address : String
  pub port : String
  pub target : Ref

-- The zero value.
abbrev pub zero_endpoint : Endpoint
zero_endpoint = record { address = ""; port = ""; target = none }

pub record Backend : Type 0 where
  pub name : String
  pub service : Ref
  pub port : IntOrString
  pub ssl_passthrough : Bool
  pub endpoints : Slice Endpoint
  pub session_affinity : SessionAffinityConfig
  pub upstream_hash_by : UpstreamHashByConfig
  pub load_balancing : String
  pub no_server : Bool
  pub traffic_shaping_policy : TrafficShapingPolicy
  pub alternative_backends : Slice String

-- The zero value.
abbrev pub zero_backend : Backend
zero_backend = record {
  name = "";
  service = none;
  port = zero_int_or_string;
  ssl_passthrough = false;
  endpoints = none;
  session_affinity = zero_session_affinity_config;
  upstream_hash_by = zero_upstream_hash_by_config;
  load_balancing = "";
  no_server = false;
  traffic_shaping_policy = zero_traffic_shaping_policy;
  alternative_backends = none;
}
