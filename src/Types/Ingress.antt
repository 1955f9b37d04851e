-- ===== src/Types/Ingress.antt =====
-- internal/ingress/types.go: `Ingress`.
use ingress_nginx.Prelude.{List, Option, String}
use ingress_nginx.Api.{IngressBackend, Rule, Tls}
use ingress_nginx.Types.Annotations.{Annotations}

-- The embedded networking.Ingress, with the fields that the program reads.
pub record Ingress : Type 0 where
  pub namespace : String
  pub name : String
  pub raw_annotations : List (String × String)
  pub backend : Option IngressBackend
  pub rules : List Rule
  pub tls : List Tls
  pub parsed_annotations : Annotations
