-- ===== src/Controller/Streams.antt =====
-- internal/ingress/controller/controller.go: `getStreamServices`.
pub mod Allowed
use Prim.Native.Char.{code}
use Prim.Native.String
use ingress_nginx.Prelude.{
  ℕ, ◌-◌, ℤ, pos, ltb_ℤ, int_eq, nat_eq, Bool, true, false, ◌&&◌, ◌||◌, leb, Option, none, some,
  List, [], ◌∷◌, Slice, String, ◌==◌, string_eq, if◌then◌else◌,
}
use ingress_nginx.Api.{Service, ServicePort}
use ingress_nginx.K8s.{before_first, parse_name_ns}
use ingress_nginx.Maps.{Map}
use ingress_nginx.Numbers.{atoi, int32}
use ingress_nginx.Sorting.{slice_stable}
use ingress_nginx.Types.Backend.{Endpoint}
use ingress_nginx.Types.Configuration.{L4Service, ProxyProtocol}
use ingress_nginx.Controller.Endpoints.{Names, get_endpoints}
use ingress_nginx.Controller.Services.{StoreView}
use ingress_nginx.Controller.Dynamic.{from_nil}

-- `ListenPorts` of the controller's configuration
pub record ListenPorts : Type 0 where
  pub http : ℤ
  pub https : ℤ
  pub ssl_proxy : ℤ
  pub health : ℤ
  pub default : ℤ

-- `rp`, with ProfilerPort, StatusPort and StreamPort of internal/nginx/main.go
abbrev pub reserved_ports : ListenPorts → List ℤ
reserved_ports p =
    p.http ∷ p.https ∷ p.ssl_proxy ∷ p.health ∷ p.default ∷ pos 10245 ∷ pos 10246 ∷ pos 10247 ∷ []

unfoldable pub has_port : List ℤ → ℤ → Bool
has_port [] p = false
has_port (q ∷ qs) p = q == p || has_port qs p

-- strings.Split(s, ":")
unfoldable pub split_colon : String → List String
split_colon String.[] = String.[] ∷ []
split_colon (String.◌∷◌ c s) =
    let rest = split_colon s in if code c == b':' then String.[] ∷ rest else before_first c rest

-- strings.ToUpper(s) == t for a text t of capital letters P, R, O, X and Y, to which no character outside of
-- ASCII is turned
abbrev upper_code : ℕ → ℕ
upper_code c = if leb b'a' c && leb c b'z' then c - 32 else c

unfoldable pub upper_is : String → String → Bool
upper_is String.[] String.[] = true
upper_is String.[] (String.◌∷◌ d t) = false
upper_is (String.◌∷◌ c s) String.[] = false
upper_is (String.◌∷◌ c s) (String.◌∷◌ d t) = upper_code (code c) == code d && upper_is s t

-- `svcProxyProtocol`, for the parts after the port
unfoldable pub proxy_protocol : String → List String → ProxyProtocol
unfolding upper_is
proxy_protocol proto [] = record { decode = false; encode = false }
proxy_protocol proto (d ∷ []) = record {
  decode = proto == "TCP" && upper_is d "PROXY";
  encode = false;
}
proxy_protocol proto (d ∷ e ∷ []) = record {
  decode = proto == "TCP" && upper_is d "PROXY";
  encode = proto == "TCP" && upper_is e "PROXY";
}
proxy_protocol proto (d ∷ e ∷ f ∷ rest) = record {
  decode = proto == "TCP" && upper_is d "PROXY";
  encode = false;
}

-- Whether a port of the service is the one of the reference.
unfoldable pub is_stream_port : String → String → ServicePort → Bool
unfolding atoi int32
is_stream_port proto svc_port sp =
    let target = atoi svc_port in
    (if target.1 then sp.name == svc_port else sp.port == int32 target.0) && sp.protocol == proto

unfoldable pub stream_port : String → String → List ServicePort → Option ServicePort
unfolding is_stream_port
stream_port proto svc_port [] = none
stream_port proto svc_port (sp ∷ sps) =
    if is_stream_port proto svc_port sp then some sp else stream_port proto svc_port sps

module _ (N : Names) (S : StoreView) (proto : String) where
  open S use {get_service, service_at, get_service_endpoints}

  unfoldable pub stream_endpoints : Service → String → List Endpoint
  unfolding get_endpoints stream_port
  stream_endpoints svc svc_port = elim (stream_port proto svc_port svc.ports) [
    | none ↦ []
    | some sp ↦ get_endpoints N (some svc) (some sp) proto get_service_endpoints
  ]

  abbrev pub l4_service :
      ℤ → String → String → String → ProxyProtocol → List Endpoint → ℕ → L4Service
  l4_service port namespace name svc_port proxy endps a = record {
    port = port;
    backend = record {
      name = name;
      namespace = namespace;
      port = record { is_string = true; int_val = pos 0; str_val = svc_port };
      protocol = proto;
      proxy_protocol = proxy;
    };
    endpoints = some endps;
    service = some a;
  }

  -- The end of a round: nothing is appended for a service without endpoints.
  unfoldable pub with_stream_endpoints :
      ℤ → String × String → String → ProxyProtocol → List Endpoint → ℕ → Option L4Service
  with_stream_endpoints port names svc_port proxy [] a = none
  with_stream_endpoints port names svc_port proxy (e ∷ es) a =
      some (l4_service port names.0 names.1 svc_port proxy (e ∷ es) a)

  -- A round of the loop from the split of the reference on.
  unfoldable pub referred : ℤ → List String → Option L4Service
  unfolding parse_name_ns stream_endpoints with_stream_endpoints proxy_protocol
  referred port [] = none
  referred port (a ∷ []) = none
  referred port (ns_name ∷ svc_port ∷ flags) = elim (parse_name_ns ns_name) [
    | none ↦ none
    | some names ↦ elim (get_service ns_name) [
      | none ↦ none
      | some a ↦
          with_stream_endpoints port names svc_port (proxy_protocol proto flags)
            (stream_endpoints (service_at a) svc_port) a
    ]
  ]

  module _ (ports : ListenPorts) where
    -- One round of the loop over the entries of the ConfigMap
    unfoldable pub stream_service : String → String → Option L4Service
    unfolding atoi has_port split_colon referred
    stream_service port svc_ref =
        let external = atoi port in
        if external.1 || has_port (reserved_ports ports) external.0
        then none
        else referred external.0 (split_colon svc_ref)

    unfoldable pub stream_services : Map String → List L4Service
    unfolding stream_service
    stream_services [] = []
    stream_services ((port, svc_ref) ∷ data_map) =
        let rest = stream_services data_map in
        elim (stream_service port svc_ref) [ none ↦ rest | some svc ↦ svc ∷ rest ]

    -- `getStreamServices`; `get_config_map` of the store gives the data of a ConfigMap or an error.
    unfoldable pub get_stream_services : (String → Option (Map String)) → String → Slice L4Service
    unfolding stream_services slice_stable parse_name_ns
    get_stream_services get_config_map configmap_name =
        if configmap_name == "" then some [] else elim (parse_name_ns configmap_name) [
          | none ↦ some []
          | some names ↦ elim (get_config_map configmap_name) [
            | none ↦ some []
            | some data_map ↦
                from_nil (slice_stable (λ a b. ltb_ℤ a.port b.port) (stream_services data_map))
          ]
        ]
