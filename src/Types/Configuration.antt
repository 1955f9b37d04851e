-- ===== src/Types/Configuration.antt =====
-- internal/ingress/types.go: `Configuration`, its stream services and passthrough backends.
use ingress_nginx.Prelude.{Bool, Slice, String, ℤ, pos, none, false}
use ingress_nginx.Api.{Ref, IntOrString, zero_int_or_string}
use ingress_nginx.Types.Backend.{Endpoint}

pub record ProxyProtocol : Type 0 where
  pub decode : Bool
  pub encode : Bool

-- The zero value.
abbrev pub zero_proxy_protocol : ProxyProtocol
zero_proxy_protocol = record { decode = false; encode = false }

pub record L4Backend : Type 0 where
  pub port : IntOrString
  pub name : String
  pub namespace : String
  pub protocol : String
  pub proxy_protocol : ProxyProtocol

-- The zero value.
abbrev pub zero_l4_backend : L4Backend
zero_l4_backend = record {
  port = zero_int_or_string;
  name = "";
  namespace = "";
  protocol = "";
  proxy_protocol = zero_proxy_protocol;
}

pub record L4Service : Type 0 where
  pub port : ℤ
  pub backend : L4Backend
  pub endpoints : Slice Endpoint
  pub service : Ref

-- The zero value.
abbrev pub zero_l4_service : L4Service
zero_l4_service = record {
  port = pos 0;
  backend = zero_l4_backend;
  endpoints = none;
  service = none;
}

pub record SslPassthroughBackend : Type 0 where
  pub service : Ref
  pub port : IntOrString
  pub backend : String
  pub hostname : String

-- The zero value.
abbrev pub zero_ssl_passthrough_backend : SslPassthroughBackend
zero_ssl_passthrough_backend = record {
  service = none;
  port = zero_int_or_string;
  backend = "";
  hostname = "";
}

pub record Configuration : Type 0 where
  pub backends : Slice Ref
  pub servers : Slice Ref
  pub tcp_endpoints : Slice L4Service
  pub udp_endpoints : Slice L4Service
  pub passthrough_backends : Slice Ref
  pub backend_config_checksum : String
  pub configuration_checksum : String
  pub default_ssl_certificate : Ref

-- The zero value.
abbrev pub zero_configuration : Configuration
zero_configuration = record {
  backends = none;
  servers = none;
  tcp_endpoints = none;
  udp_endpoints = none;
  passthrough_backends = none;
  backend_config_checksum = "";
  configuration_checksum = "";
  default_ssl_certificate = none;
}
