-- ===== src/Controller/Dynamic.antt =====
-- internal/ingress/controller/nginx.go: whether a new configuration can be applied without a reload.
-- `none` is a panic on a nil pointer.
pub mod Laws
use ingress_nginx.Prelude.{Bool, Option, none, some, List, [], ◌∷◌, Slice, elems, ◌≡◌, refl}
use ingress_nginx.Api.{Ref}
use ingress_nginx.Equality.Configuration.{equal}
use ingress_nginx.Types.Configuration.{Configuration, L4Service}
use ingress_nginx.Types.Heap.{Heap}
use ingress_nginx.Types.Server.{Server}

-- The body of the loops of `clearL4serviceEndpoints`.
abbrev pub clear_service : L4Service → L4Service
clear_service s = record s { endpoints = some []; service = none }

abbrev pub clear_all : List L4Service → List L4Service
clear_all [] = []
clear_all (s ∷ ss) = clear_service s ∷ clear_all ss

-- A nil slice after `append` of the elements.
abbrev pub from_nil {ℓ} : {A : Type ℓ} → List A → Slice A
from_nil [] = none
from_nil (a ∷ as') = some (a ∷ as')

pub elems-from_nil : {A : Type 0} (as' : List A) → elems (from_nil as') ≡ as'
elems-from_nil [] = refl
elems-from_nil (a ∷ as') = refl

unfoldable pub clear_l4service_endpoints : Configuration → Configuration
clear_l4service_endpoints config = record config {
  tcp_endpoints = from_nil (clear_all (elems config.tcp_endpoints));
  udp_endpoints = from_nil (clear_all (elems config.udp_endpoints));
}

-- `copyOfServer`
abbrev pub clear_server : Server → Server
clear_server s = record s { ssl_cert = none }

-- The copies that `clearCertificates` makes stand at the addresses of the originals in a heap of
-- their own: no code reads an original through a cleared configuration.
abbrev pub cleared_heap : Heap → Heap
cleared_heap h = record h { server = λ a. clear_server (h.server a) }

abbrev pub copied : List Ref → Option (List Ref)
copied [] = some []
copied (none ∷ rs) = none
copied (some a ∷ rs) = elim (copied rs) [ none ↦ none | some ss ↦ some (some a ∷ ss) ]

unfoldable pub clear_certificates : Configuration → Option Configuration
clear_certificates config = elim (copied (elems config.servers)) [
  | none ↦ none
  | some ss ↦ some (record config { servers = from_nil ss })
]

-- What is done to each of the two copies.
unfoldable pub cleared : Configuration → Option Configuration
unfolding clear_l4service_endpoints clear_certificates
cleared config =
    clear_certificates (clear_l4service_endpoints (record config { backends = some [] }))

-- `IsDynamicConfigurationEnough`, with the running configuration
unfoldable pub is_dynamic_configuration_enough : Heap → Configuration → Configuration → Option Bool
unfolding cleared equal
is_dynamic_configuration_enough h running pcfg = elim (cleared running) [
  | none ↦ none
  | some c1 ↦ elim (cleared pcfg) [ none ↦ none | some c2 ↦ some (equal (cleared_heap h) c1 c2) ]
]
