-- ===== src/Controller/Services.antt =====
-- internal/ingress/controller/controller.go: the ports and endpoints of a service.
use ingress_nginx.Prelude.{
  ℕ, ℤ, pos, negsuc, Bool, false, not, ◌||◌, Option, none, some, List, [], ◌∷◌, Slice, String, ◌==◌,
  string_eq, int_eq, if◌then◌else◌,
}
use ingress_nginx.Api.{
  IntOrString, IngressBackend, Service, ServicePort, EndpointSubset, itoa, port_string,
}
use ingress_nginx.Numbers.{atoi, int32}
use ingress_nginx.Types.Backend.{Endpoint}
use ingress_nginx.Controller.Endpoints.{Names, get_endpoints, external_name_type}

-- intstr.FromInt, which converts to an int32
abbrev pub from_int : ℤ → IntOrString
unfolding int32
from_int n = record { is_string = false; int_val = int32 n; str_val = "" }

-- What the controller asks the store: `GetService` gives the address of a service or an error,
-- `GetServiceEndpoints` its endpoints or an error.
pub record StoreView : Type 0 where
  pub get_service : String → Option ℕ
  pub service_at : ℕ → Service
  pub get_service_endpoints : String → Option (List EndpointSubset)
  pub load_balancing : String

abbrev pub found_port : ℤ → IntOrString → ServicePort
found_port port target_port = record {
  name = "";
  protocol = "TCP";
  port = port;
  target_port = target_port;
}

module _ (N : Names) where
  open N use {int_value}

  -- The first loop of `externalNamePorts`.
  unfoldable pub port_by_name : String → List ServicePort → Option ServicePort
  port_by_name name [] = none
  port_by_name name (p ∷ ps) =
      let rest = port_by_name name ps in
      if not (p.name == name)
      then rest
      else some (
          found_port p.port
            (if int_value p.target_port == pos 0 then from_int p.port else p.target_port))

  -- The second loop, which computes a target port and does not use it.
  unfoldable pub port_by_number : ℤ → List ServicePort → Option ServicePort
  port_by_number port [] = none
  port_by_number port (p ∷ ps) =
      let rest = port_by_number port ps in
      if not (p.port == int32 port) then rest else some (found_port p.port p.target_port)

  -- `externalNamePorts`
  unfoldable pub external_name_ports : String → Service → ServicePort
  unfolding port_by_name port_by_number
  external_name_ports name svc =
      let port = (atoi name).0 in
      let by_number : ServicePort = elim (port_by_number port svc.ports) [
        | some p ↦ p
        | none ↦ found_port (int32 port) (from_int port)
      ] in
      if (atoi name).1
      then elim (port_by_name name svc.ports) [ some p ↦ p | none ↦ by_number ]
      else by_number

  -- Whether a port of a service is the one that a backend names.
  unfoldable pub is_backend_port : String → ServicePort → Bool
  is_backend_port backend_port p =
      itoa p.port == backend_port
      || port_string p.target_port == backend_port
      || p.name == backend_port

  unfoldable pub first_port : String → List ServicePort → Option ServicePort
  unfolding is_backend_port
  first_port backend_port [] = none
  first_port backend_port (p ∷ ps) =
      if is_backend_port backend_port p then some p else first_port backend_port ps

  module _ (S : StoreView) where
    open S use {get_service, service_at, get_service_endpoints}

    -- `append` to a nil slice
    abbrev appended : List Endpoint → Slice Endpoint
    appended [] = none
    appended (e ∷ es) = some (e ∷ es)

    -- The endpoints of a service that the store has.
    unfoldable pub endpoints_of_service : Service → String → List Endpoint
    unfolding external_name_ports first_port
    endpoints_of_service svc backend_port =
        if svc.service_type == external_name_type
        then get_endpoints N (some svc) (some (external_name_ports backend_port svc)) "TCP"
            get_service_endpoints
        else elim (first_port backend_port svc.ports) [
          | none ↦ []
          | some p ↦ get_endpoints N (some svc) (some p) "TCP" get_service_endpoints
        ]

    -- `serviceEndpoints`, with `none` for an error
    unfoldable pub service_endpoints : String → String → Option (Slice Endpoint)
    unfolding endpoints_of_service
    service_endpoints svc_key backend_port = elim (get_service svc_key) [
      | none ↦ none
      | some a ↦ some (appended (endpoints_of_service (service_at a) backend_port))
    ]

    -- The search for the port named `name`; -1 if there is none.
    unfoldable pub port_number : String → List ServicePort → ℤ
    port_number name [] = negsuc 0
    port_number name (p ∷ ps) = if p.name == name then p.port else port_number name ps

    unfoldable pub cluster_endpoint : Service → IngressBackend → Option Endpoint
    unfolding port_number
    cluster_endpoint svc backend =
        let at_port : String → Endpoint =
          λ port. record { address = svc.cluster_ip; port = port; target = none } in
        let number = port_number (port_string backend.service_port) svc.ports in
        if svc.cluster_ip == "" || svc.cluster_ip == "None"
        then none
        else if backend.service_port.is_string
        then (if number == negsuc 0 then none else some (at_port (itoa number)))
        else some (at_port (port_string backend.service_port))

    -- `getServiceClusterEndpoint`, with `none` for an error
    unfoldable pub service_cluster_endpoint : String → IngressBackend → Option Endpoint
    unfolding cluster_endpoint
    service_cluster_endpoint svc_key backend = elim (get_service svc_key) [
      | none ↦ none
      | some a ↦ cluster_endpoint (service_at a) backend
    ]
