-- ===== src/Tests/Syncs.antt =====
-- Runs of the synchronisation.
use ingress_nginx.Prelude.{
  ℤ, pos, Bool, true, false, ◌&&◌, none, some, List, [], ◌∷◌, Slice, elems, String, ◌≡◌, refl, ◌↔◌,
  arith, Eq, ◌==◌, nat_eq, int_eq, option_eq, on, on-IsEquiv, eq-of-test, test-of-eq,
}
use ingress_nginx.Api.{Ref}
use ingress_nginx.Types.Configuration.{
  Configuration, L4Service, zero_configuration, zero_l4_service,
}
use ingress_nginx.Controller.Sync.{
  DeepEqual, State, initial, Answers, refused, unchanged, reconfigure_failed, done, stamped,
  sync_ingress,
}
use ingress_nginx.Controller.Sync.Between.{IsConsistent, same}
use ingress_nginx.Controller.Sync.Recovery.{all_accepted, sync_ingress-IsConsistent, sync_recovers}
use ingress_nginx.Tests.Samples.{heap}

abbrev list_beq {ℓ} : {A : Type ℓ} ⦃e : Eq A⦄ → List A → List A → Bool
list_beq [] [] = true
list_beq [] (y ∷ ys) = false
list_beq (x ∷ xs) [] = false
list_beq (x ∷ xs) (y ∷ ys) = x == y && list_beq xs ys

list_beq_iff {ℓ} : {A : Type ℓ} ⦃e : Eq A⦄ (xs ys : List A) → (list_beq xs ys ≡ true) ↔ (xs ≡ ys)
list_beq_iff [] [] = (λ h. refl, λ h. refl)
list_beq_iff [] (y ∷ ys) = (λ h. cc, λ h. cc)
list_beq_iff (x ∷ xs) [] = (λ h. cc, λ h. cc)
list_beq_iff (x ∷ xs) (y ∷ ys) = (
  λ h.
      let first : x ≡ y = eq-of-test x y (ground (arith, h)) in
      let rest : xs ≡ ys = (list_beq_iff xs ys).0 (ground (arith, h)) in λ i. first i ∷ rest i,
  λ h.
      let first : (x == y) ≡ true = test-of-eq x y (cc) in
      ground (arith, first, (list_beq_iff xs ys).1 (cc)),
)

instance abbrev list_eq {ℓ} : {A : Type ℓ} ⦃e : Eq A⦄ → Eq (List A)
list_eq = record { equals = list_beq; decides = list_beq_iff }

-- The port of a stream service.
abbrev port_list : List L4Service → List ℤ
port_list [] = []
port_list (s ∷ ss) = s.port ∷ port_list ss

abbrev ports : Slice L4Service → List ℤ
ports services = port_list (elems services)

-- Addresses that differ stand for objects that differ, and stream services differ in their ports.
abbrev deep_equal : DeepEqual
deep_equal = record {
  backends = on (λ (s : Slice Ref). s);
  services = on ports;
  servers = on (λ (s : Slice Ref). s);
  backends-IsEquiv = on-IsEquiv (λ s. s);
  services-IsEquiv = on-IsEquiv ports;
  servers-IsEquiv = on-IsEquiv (λ s. s);
}

abbrev checksum : Configuration → String
checksum c = "sum"

abbrev with_server : Ref → Configuration
with_server r = record zero_configuration {
  backends = some (none ∷ []);
  servers = some (r ∷ []);
  tcp_endpoints = some (record zero_l4_service { port = pos 53 } ∷ []);
}

abbrev first_config : Configuration
first_config = with_server (some 0)

abbrev after_first : State
after_first = record {
  running_config = stamped checksum first_config;
  nginx = record {
    file = stamped checksum first_config;
    backends = first_config.backends;
    streams = (first_config.tcp_endpoints, none);
    servers = first_config.servers;
  };
}

initial-IsConsistent : IsConsistent heap deep_equal initial
initial-IsConsistent = record {
  loaded = same;
  parts = record { backends = refl; streams = refl; servers = refl };
}

first_run :
    sync_ingress heap deep_equal checksum first_config all_accepted initial
    ≡ some (done, after_first)
unfolding sync_ingress ingress_nginx.Equality.Pointers.equal_ptr
    ingress_nginx.Equality.Backend.compare_backends ingress_nginx.Sets.compare
first_run = refl

sync_ingress-IsConsistent_example : IsConsistent heap deep_equal after_first
sync_ingress-IsConsistent_example =
    sync_ingress-IsConsistent heap deep_equal checksum first_config all_accepted initial
      (done, after_first) initial-IsConsistent first_run refl

-- The server of this configuration has another host name.
abbrev second_config : Configuration
second_config = with_server (some 1)

-- The request with the certificates fails after a reload.
abbrev no_certificates : Answers
no_certificates = record all_accepted { servers = refused }

abbrev after_second : State
after_second = record after_first {
  nginx = record after_first.nginx { file = stamped checksum second_config };
}

second_run :
    sync_ingress heap deep_equal checksum second_config no_certificates after_first
    ≡ some (reconfigure_failed, after_second)
unfolding sync_ingress ingress_nginx.Equality.Pointers.equal_ptr
    ingress_nginx.Equality.Backend.compare_backends ingress_nginx.Sets.compare
    ingress_nginx.Equality.Backend.backend_ptr_equal
    ingress_nginx.Equality.Configuration.servers_equal
    ingress_nginx.Equality.Pointers.equal_in_order ingress_nginx.Equality.Server.server_ptr_equal
    ingress_nginx.Equality.Server.equal
second_run = refl

sync_recovers_example :
    (t : State) × ((sync_ingress heap deep_equal checksum second_config all_accepted after_second
        ≡ some (done, t))
      × IsConsistent heap deep_equal t)
sync_recovers_example =
    sync_recovers heap deep_equal checksum second_config no_certificates after_first
      (reconfigure_failed, after_second)
      (record { loaded = same; parts = record { backends = refl; streams = refl; servers = refl } })
      second_run refl

-- If the change is taken back before that, the sync finds no change, and NGINX goes on with the
-- second configuration.
taken_back :
    (sync_ingress heap deep_equal checksum first_config all_accepted after_second
      ≡ some (unchanged, after_second))
    × (after_second.nginx.file ≡ stamped checksum second_config)
unfolding sync_ingress ingress_nginx.Equality.Pointers.equal_ptr
    ingress_nginx.Equality.Backend.compare_backends ingress_nginx.Sets.compare
    ingress_nginx.Equality.Backend.backend_ptr_equal
    ingress_nginx.Equality.Configuration.servers_equal
    ingress_nginx.Equality.Pointers.equal_in_order ingress_nginx.Equality.Server.server_ptr_equal
    ingress_nginx.Equality.Configuration.compare_l4_service
    ingress_nginx.Equality.Configuration.l4_service_equal
    ingress_nginx.Equality.Configuration.l4_backend_equal
    ingress_nginx.Equality.Backend.compare_endpoints
    ingress_nginx.Equality.Configuration.passthrough_found ingress_nginx.Equality.Pointers.all_found
taken_back = (refl, refl)
