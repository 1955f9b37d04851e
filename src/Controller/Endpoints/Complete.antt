-- ===== src/Controller/Endpoints/Complete.antt =====
-- No address of a service is left out.
use ingress_nginx.Prelude.{
  ℤ, Bool, true, false, Option, some, List, [], ◌∷◌, String, ◌==◌, string_eq, if◌then◌else◌, ◌≡◌,
  inl, inr, arith, Bool-cases, All, eq_refl, subst,
}
use ingress_nginx.Api.{
  Service, ServicePort, EndpointPort, EndpointAddress, EndpointSubset, itoa, meta_namespace_key,
}
use ingress_nginx.Types.Backend.{Endpoint}
use ingress_nginx.Maps.{contains, contains-cons}
use ingress_nginx.Controller.Endpoints.{
  Names, Found, add_address, add_addresses, target_port_of, port_matches, add_ports, add_subsets,
  external_name_type, get_endpoints,
}
use ingress_nginx.Controller.Endpoints.Laws.{joined, all-IsFrom, Fits, Fits-port_matches}

module _ (N : Names) where
  open N use {join_host_port}

  -- What the loops have processed they keep.
  abbrev Keeps : Found → Found → Type 0
  Keeps f g = (k : String) → contains f.processed k ≡ true → contains g.processed k ≡ true

  add_address-Keeps : (tp : ℤ) (f : Found) (a : EndpointAddress) → Keeps f (add_address N tp f a)
  unfolding add_address
  add_address-Keeps tp f a k h =
      elim (Bool-cases (contains f.processed (join_host_port a.ip (itoa tp)))) [
        | inl old ↦ rw old h
        | inr new ↦
            rw new (ground (arith, contains-cons (join_host_port a.ip (itoa tp)) f.processed k))
      ]

  add_addresses-Keeps :
      (tp : ℤ) (f : Found) (as' : List EndpointAddress) → Keeps f (add_addresses N tp f as')
  unfolding add_addresses
  add_addresses-Keeps tp f [] k h = h
  add_addresses-Keeps tp f (a ∷ as') k h =
      add_addresses-Keeps tp (add_address N tp f a) as' k (add_address-Keeps tp f a k h)

  add_ports-Keeps :
      (port : ServicePort) (proto : String) (f : Found) (as' : List EndpointAddress)
      (ps : List EndpointPort)
      → Keeps f (add_ports N port proto f as' ps)
  unfolding add_ports
  add_ports-Keeps port proto f as' [] k h = h
  add_ports-Keeps port proto f as' (p ∷ ps) k h = elim (Bool-cases (port_matches N port proto p)) [
    | inl fits ↦
        rw (fits, add_ports)
          (add_ports-Keeps port proto (add_addresses N (target_port_of N port p) f as') as' ps k
            (add_addresses-Keeps (target_port_of N port p) f as' k h))
    | inr differs ↦ rw (differs, add_ports) (add_ports-Keeps port proto f as' ps k h)
  ]

  add_subsets-Keeps :
      (port : ServicePort) (proto : String) (f : Found) (sss : List EndpointSubset)
      → Keeps f (add_subsets N port proto f sss)
  unfolding add_subsets
  add_subsets-Keeps port proto f [] k h = h
  add_subsets-Keeps port proto f (ss ∷ sss) k h =
      add_subsets-Keeps port proto (add_ports N port proto f ss.addresses ss.ports) sss k
        (add_ports-Keeps port proto f ss.addresses ss.ports k h)

  All-Keeps :
      (tp : ℤ) (f g : Found) (as' : List EndpointAddress)
      → Keeps f g
      → All (λ a. contains f.processed (join_host_port a.ip (itoa tp)) ≡ true) as'
      → All (λ a. contains g.processed (join_host_port a.ip (itoa tp)) ≡ true) as'
  All-Keeps tp f g [] k h = tt
  All-Keeps tp f g (a ∷ as') k (p, h) = (k _ p, All-Keeps tp f g as' k h)

  add_address-adds :
      (tp : ℤ) (f : Found) (a : EndpointAddress)
      → contains (add_address N tp f a).processed (join_host_port a.ip (itoa tp)) ≡ true
  unfolding add_address
  add_address-adds tp f a =
      elim (Bool-cases (contains f.processed (join_host_port a.ip (itoa tp)))) [
        | inl old ↦ rw old old
        | inr new ↦ rw new (
            ground (
              arith,
              contains-cons (join_host_port a.ip (itoa tp)) f.processed
                  (join_host_port a.ip (itoa tp)),
              eq_refl (join_host_port a.ip (itoa tp)),
            ))
      ]

  add_addresses-adds :
      (tp : ℤ) (f : Found) (as' : List EndpointAddress)
      → All
          (λ a.
            contains (add_addresses N tp f as').processed (join_host_port a.ip (itoa tp)) ≡ true)
          as'
  unfolding add_addresses
  add_addresses-adds tp f [] = tt
  add_addresses-adds tp f (a ∷ as') = (
    add_addresses-Keeps tp (add_address N tp f a) as' _ (add_address-adds tp f a),
    add_addresses-adds tp (add_address N tp f a) as',
  )

  -- Each address of the subset with each matching port of it has been processed.
  abbrev Covers :
      ServicePort → String → (String → Bool) → List EndpointAddress → List EndpointPort → Type 0
  Covers port proto seen as' ps =
      All
        (λ p.
          port_matches N port proto p ≡ true
          → All (λ a. seen (join_host_port a.ip (itoa (target_port_of N port p))) ≡ true) as')
        ps

  Covers-Keeps :
      (port : ServicePort) (proto : String) (seen seen' : String → Bool)
      (as' : List EndpointAddress) (ps : List EndpointPort)
      → ((k : String) → seen k ≡ true → seen' k ≡ true)
      → Covers port proto seen as' ps
      → Covers port proto seen' as' ps
  Covers-Keeps port proto seen seen' as' [] k h = tt
  Covers-Keeps port proto seen seen' as' (p ∷ ps) k (hp, h) =
      (λ fits. all_seen as' (hp fits), Covers-Keeps port proto seen seen' as' ps k h)
    where
      all_seen :
          (xs : List EndpointAddress)
          → All (λ a. seen (join_host_port a.ip (itoa (target_port_of N port p))) ≡ true) xs
          → All (λ a. seen' (join_host_port a.ip (itoa (target_port_of N port p))) ≡ true) xs
      all_seen [] h = tt
      all_seen (x ∷ xs) (q, h) = (k _ q, all_seen xs h)

  add_ports-Covers :
      (port : ServicePort) (proto : String) (f : Found) (as' : List EndpointAddress)
      (ps : List EndpointPort)
      → Covers port proto (contains (add_ports N port proto f as' ps).processed) as' ps
  unfolding add_ports
  add_ports-Covers port proto f as' [] = tt
  add_ports-Covers port proto f as' (p ∷ ps) = (
    λ fits.
        let g : Found = add_addresses N (target_port_of N port p) f as' in
        rw (fits, add_ports)
          (All-Keeps (target_port_of N port p) g (add_ports N port proto g as' ps) as'
            (add_ports-Keeps port proto g as' ps)
            (add_addresses-adds (target_port_of N port p) f as')),
    add_ports-Covers port proto
        (if port_matches N port proto p then add_addresses N (target_port_of N port p) f as' else f)
        as' ps,
  )

  add_subsets-Covers :
      (port : ServicePort) (proto : String) (f : Found) (sss : List EndpointSubset)
      → All
          (λ ss.
            Covers port proto
              (contains (add_subsets N port proto f sss).processed)
              ss.addresses
              ss.ports)
          sss
  unfolding add_subsets
  add_subsets-Covers port proto f [] = tt
  add_subsets-Covers port proto f (ss ∷ sss) = (
    Covers-Keeps port proto _ _ ss.addresses ss.ports
        (add_subsets-Keeps port proto (add_ports N port proto f ss.addresses ss.ports) sss)
        (add_ports-Covers port proto f ss.addresses ss.ports),
    add_subsets-Covers port proto (add_ports N port proto f ss.addresses ss.ports) sss,
  )

  All-Covers :
      (port : ServicePort) (proto : String) (seen seen' : String → Bool) (sss : List EndpointSubset)
      → ((k : String) → seen k ≡ true → seen' k ≡ true)
      → All (λ ss. Covers port proto seen ss.addresses ss.ports) sss
      → All (λ ss. Covers port proto seen' ss.addresses ss.ports) sss
  All-Covers port proto seen seen' [] k h = tt
  All-Covers port proto seen seen' (ss ∷ sss) k (c, h) = (
    Covers-Keeps port proto seen seen' ss.addresses ss.ports k c,
    All-Covers port proto seen seen' sss k h,
  )

  -- Each address with each port that fits is the host and port of some endpoint.
  abbrev pub AllServed : ServicePort → String → List Endpoint → List EndpointSubset → Type 0
  AllServed port proto es = All (λ ss.
      All
        (λ p.
          Fits port proto p
          → All (λ a. contains (joined N es) (join_host_port a.ip (itoa p.port)) ≡ true)
              ss.addresses)
        ss.ports)

  AllServed-of_Covers :
      (port : ServicePort) (proto : String) (es : List Endpoint) (sss : List EndpointSubset)
      → All (λ ss. Covers port proto (contains (joined N es)) ss.addresses ss.ports) sss
      → AllServed port proto es sss
  AllServed-of_Covers port proto es [] h = tt
  AllServed-of_Covers port proto es (ss ∷ sss) (c, h) =
      (of_ports ss.ports c, AllServed-of_Covers port proto es sss h)
    where
      of_ports :
          (ps : List EndpointPort)
          → Covers port proto (contains (joined N es)) ss.addresses ps
          → All
              (λ p.
                Fits port proto p
                → All
                    (λ a. contains (joined N es) (join_host_port a.ip (itoa p.port)) ≡ true)
                    ss.addresses)
              ps
      of_ports [] h = tt
      of_ports (p ∷ ps) (hp, h) = (
        λ fits.
            let (matches, number) = Fits-port_matches N port proto p fits in
            subst
              (λ n.
                All (λ a. contains (joined N es) (join_host_port a.ip (itoa n)) ≡ true)
                  ss.addresses)
              number (hp matches),
        of_ports ps h,
      )

  -- Of a service that is not external and whose subsets are known, every address of every subset, with
  -- every port of the subset that has the protocol, the name unless the service's port has none, and
  -- a positive number, is the host and port of some endpoint.
  pub get_endpoints_complete :
      (s : Service) (port : ServicePort) (proto : String)
      (lookup : String → Option (List EndpointSubset)) (sss : List EndpointSubset)
      → (s.service_type == external_name_type) ≡ false
      → lookup (meta_namespace_key s.namespace s.name) ≡ some sss
      → AllServed port proto (get_endpoints N (some s) (some port) proto lookup) sss
  unfolding get_endpoints
  get_endpoints_complete s port proto lookup sss internal known =
      let start : Found = record { servers = []; processed = [] } in
      let found = add_subsets N port proto start sss in
      rw (internal, known, get_endpoints)
        (AllServed-of_Covers port proto found.servers sss (
          All-Covers port proto (contains found.processed) (contains (joined N found.servers)) sss
            (λ k h. ground (arith, (all-IsFrom N port proto sss).keys k))
            (add_subsets-Covers port proto start sss)))
