-- ===== src/Controller/Endpoints.antt =====
-- internal/ingress/controller/endpoints.go: the endpoints of a port of a service.
pub mod Laws
pub mod Complete
use ingress_nginx.Prelude.{
  ℤ, pos, ltb_ℤ, Bool, not, ◌&&◌, ◌||◌, Option, none, some, List, [], ◌∷◌, ◌++◌, String, ◌==◌,
  string_eq, if◌then◌else◌,
}
use ingress_nginx.Api.{
  IntOrString, Service, ServicePort, EndpointPort, EndpointAddress, EndpointSubset, itoa,
  meta_namespace_key,
}
use ingress_nginx.Maps.{contains}
use ingress_nginx.Strings.{trim_dot}
use ingress_nginx.Types.Backend.{Endpoint}

-- What is taken from the package net, from k8s.io/apimachinery's validation and intstr.
pub record Names : Type 0 where
  pub is_ip : String → Bool
  pub is_loopback : String → Bool
  pub is_dns1123_subdomain : String → Bool
  pub join_host_port : String → String → String
  pub int_value : IntOrString → ℤ

-- corev1.ServiceTypeExternalName
abbrev pub external_name_type : String
external_name_type = "ExternalName"

-- `upsServers` and the keys of `processedUpstreamServers`.
pub record Found : Type 0 where
  pub servers : List Endpoint
  pub processed : List String

module _ (N : Names) where
  open N use {is_ip, is_loopback, is_dns1123_subdomain, join_host_port, int_value}

  -- The body of the loop over the addresses.
  unfoldable pub add_address : ℤ → Found → EndpointAddress → Found
  unfolding contains itoa
  add_address target_port f address =
      let ep = join_host_port address.ip (itoa target_port) in
      if contains f.processed ep then f else record {
        servers =
            f.servers
            ++ (record {
              address = address.ip;
              port = itoa target_port;
              target = address.target_ref;
            }
                ∷ []);
        processed = ep ∷ f.processed;
      }

  unfoldable pub add_addresses : ℤ → Found → List EndpointAddress → Found
  unfolding add_address
  add_addresses target_port f [] = f
  add_addresses target_port f (a ∷ as') =
      add_addresses target_port (add_address target_port f a) as'

  -- `targetPort`, which stays 0 where the names differ.
  unfoldable pub target_port_of : ServicePort → EndpointPort → ℤ
  target_port_of port ep_port =
      if port.name == ""
      then ep_port.port
      else if port.name == ep_port.name
      then ep_port.port
      else pos 0

  -- Whether the loop over the ports goes on to the addresses.
  unfoldable pub port_matches : ServicePort → String → EndpointPort → Bool
  unfolding target_port_of
  port_matches port proto ep_port =
      ep_port.protocol == proto && ltb_ℤ (pos 0) (target_port_of port ep_port)

  unfoldable pub add_ports :
      ServicePort → String → Found → List EndpointAddress → List EndpointPort → Found
  unfolding add_addresses port_matches
  add_ports port proto f addresses [] = f
  add_ports port proto f addresses (p ∷ ps) =
      add_ports port proto
        (if port_matches port proto p then add_addresses (target_port_of port p) f addresses else f)
        addresses ps

  unfoldable pub add_subsets : ServicePort → String → Found → List EndpointSubset → Found
  unfolding add_ports
  add_subsets port proto f [] = f
  add_subsets port proto f (ss ∷ sss) =
      add_subsets port proto (add_ports port proto f ss.addresses ss.ports) sss

  -- The branch of a service of type ExternalName.
  unfoldable pub external_endpoints : Service → ServicePort → List Endpoint
  unfolding trim_dot itoa
  external_endpoints s port =
      if s.external_name == "localhost" || (is_ip s.external_name && is_loopback s.external_name)
      then []
      else if not (is_ip s.external_name) && not (is_dns1123_subdomain (trim_dot s.external_name))
      then []
      else record {
        address = s.external_name;
        port = itoa (int_value port.target_port);
        target = none;
      }
        ∷ []

  unfoldable pub get_endpoints :
      Option Service
      → Option ServicePort
      → String
      → (String → Option (List EndpointSubset))
      → List Endpoint
  unfolding add_subsets external_endpoints meta_namespace_key
  get_endpoints none port proto get_service_endpoints = []
  get_endpoints (some s) none proto get_service_endpoints = []
  get_endpoints (some s) (some port) proto get_service_endpoints =
      if s.service_type == external_name_type
      then external_endpoints s port
      else elim (get_service_endpoints (meta_namespace_key s.namespace s.name)) [
        | none ↦ []
        | some subsets ↦
            (add_subsets port proto (record { servers = []; processed = [] }) subsets).servers
      ]
