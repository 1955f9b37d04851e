-- ===== src/Controller/Endpoints/Laws.antt =====
-- What the endpoints of a service are: no address twice, all of them from the subsets of the
-- service, and none of them left out.
use ingress_nginx.Prelude.{
  ℤ, pos, ltb_ℤ, ◌⊎◌, true, false, Option, some, List, [], ◌∷◌, ◌++◌, String, ◌==◌, string_eq, ◌≡◌,
  inl, inr, refl, arith, Bool-cases, All, All-append, eq-of-test, test-of-eq, Some, All-of-members,
  Some-of-member,
}
use ingress_nginx.Api.{
  Service, ServicePort, EndpointPort, EndpointAddress, EndpointSubset, itoa, meta_namespace_key,
}
use ingress_nginx.Maps.{contains, contains-append, contains-cons, contains-nil}
use ingress_nginx.Types.Backend.{Endpoint}
use ingress_nginx.Controller.Endpoints.{
  Names, Found, add_address, add_addresses, target_port_of, port_matches, add_ports, add_subsets,
  external_name_type, get_endpoints,
}

-- No text stands twice in a list.
abbrev pub NoRepeats : List String → Type 0
NoRepeats [] = Unit
NoRepeats (x ∷ xs) = (contains xs x ≡ false) × NoRepeats xs

pub NoRepeats-concat :
    (xs : List String) (x : String)
    → NoRepeats xs
    → contains xs x ≡ false
    → NoRepeats (xs ++ (x ∷ []))
unfolding contains
NoRepeats-concat [] x n h = (refl, tt)
NoRepeats-concat (y ∷ xs) x n h = (
  ground (arith, contains-append xs (x ∷ []) y, eq-of-test x y, test-of-eq y x, n.0),
  NoRepeats-concat xs x n.1 (ground arith),
)

-- A port of a subset with the protocol, the name of the service's port unless that has none, and a positive
-- number.
pub record Fits (port : ServicePort) (proto : String) (p : EndpointPort) : Type 0 where
  pub protocol : p.protocol ≡ proto
  pub name : (port.name ≡ "") ⊎ (port.name ≡ p.name)
  pub positive : ltb_ℤ (pos 0) p.port ≡ true

module _ (N : Names) where
  open N use {is_ip, is_loopback, is_dns1123_subdomain, join_host_port, int_value}

  abbrev pub joined : List Endpoint → List String
  joined [] = []
  joined (e ∷ es) = join_host_port e.address e.port ∷ joined es

  joined-append : (es fs : List Endpoint) → joined (es ++ fs) ≡ joined es ++ joined fs
  joined-append [] fs = refl
  joined-append (e ∷ es) fs = rw (joined-append es fs)

  module _ (P : Endpoint → Type 0) where
    -- The keys are those of the servers, no server is found twice, and all have the property.
    pub record IsSound (f : Found) : Type 0 where
      pub keys : (k : String) → contains f.processed k ≡ contains (joined f.servers) k
      pub distinct : NoRepeats (joined f.servers)
      pub all : All P f.servers

    add_address-IsSound :
        (tp : ℤ) (f : Found) (a : EndpointAddress)
        → P (record { address = a.ip; port = itoa tp; target = a.target_ref })
        → IsSound f
        → IsSound (add_address N tp f a)
    unfolding add_address
    add_address-IsSound tp f a p s =
        elim (Bool-cases (contains f.processed (join_host_port a.ip (itoa tp)))) [
          | inl old ↦ rw old s
          | inr new ↦ rw new (record {
            keys = λ k. rw (joined-append f.servers) (
                ground (
                  arith,
                  s.keys k,
                  contains-append (joined f.servers) (join_host_port a.ip (itoa tp) ∷ []) k,
                  contains-cons (join_host_port a.ip (itoa tp)) f.processed k,
                  contains-cons (join_host_port a.ip (itoa tp)) [] k,
                  contains-nil k,
                ));
            distinct = rw (joined-append f.servers) (
                NoRepeats-concat (joined f.servers) _ s.distinct
                  (ground (arith, s.keys (join_host_port a.ip (itoa tp)))));
            all = All-append P f.servers _ s.all (p, tt);
          })
        ]

    add_addresses-IsSound :
        (tp : ℤ) (f : Found) (as' : List EndpointAddress)
        → All (λ a. P (record { address = a.ip; port = itoa tp; target = a.target_ref })) as'
        → IsSound f
        → IsSound (add_addresses N tp f as')
    unfolding add_addresses
    add_addresses-IsSound tp f [] h s = s
    add_addresses-IsSound tp f (a ∷ as') (p, h) s =
        add_addresses-IsSound tp (add_address N tp f a) as' h (add_address-IsSound tp f a p s)

    add_ports-IsSound :
        (port : ServicePort) (proto : String) (f : Found) (as' : List EndpointAddress)
        (ps : List EndpointPort)
        → All
            (λ p.
              port_matches N port proto p ≡ true
              → All
                  (λ a. P (record {
                    address = a.ip;
                    port = itoa (target_port_of N port p);
                    target = a.target_ref;
                  }))
                  as')
            ps
        → IsSound f
        → IsSound (add_ports N port proto f as' ps)
    unfolding add_ports
    add_ports-IsSound port proto f as' [] h s = s
    add_ports-IsSound port proto f as' (p ∷ ps) (hp, h) s =
        elim (Bool-cases (port_matches N port proto p)) [
          | inl fits ↦
              rw (fits, add_ports)
                (add_ports-IsSound port proto (add_addresses N (target_port_of N port p) f as') as'
                  ps h (add_addresses-IsSound (target_port_of N port p) f as' (hp fits) s))
          | inr differs ↦ rw (differs, add_ports) (add_ports-IsSound port proto f as' ps h s)
        ]

    add_subsets-IsSound :
        (port : ServicePort) (proto : String) (f : Found) (sss : List EndpointSubset)
        → All
            (λ ss.
              All
                (λ p.
                  port_matches N port proto p ≡ true
                  → All
                      (λ a. P (record {
                        address = a.ip;
                        port = itoa (target_port_of N port p);
                        target = a.target_ref;
                      }))
                      ss.addresses)
                ss.ports)
            sss
        → IsSound f
        → IsSound (add_subsets N port proto f sss)
    unfolding add_subsets
    add_subsets-IsSound port proto f [] h s = s
    add_subsets-IsSound port proto f (ss ∷ sss) (hs, h) s =
        add_subsets-IsSound port proto (add_ports N port proto f ss.addresses ss.ports) sss h
          (add_ports-IsSound port proto f ss.addresses ss.ports hs s)

  -- The endpoint is an address and a port that fits of one of the subsets.
  abbrev pub IsFrom : ServicePort → String → List EndpointSubset → Endpoint → Type 0
  IsFrom port proto sss e =
      Some
        (λ ss.
          Some
            (λ p.
              Fits port proto p
              × Some (λ a. e ≡ record { address = a.ip; port = itoa p.port; target = a.target_ref })
                  ss.addresses)
            ss.ports)
        sss

  pub port_matches-Fits :
      (port : ServicePort) (proto : String) (p : EndpointPort)
      → port_matches N port proto p ≡ true
      → Fits port proto p × (target_port_of N port p ≡ p.port)
  unfolding port_matches target_port_of
  port_matches-Fits port proto p h =
      let same : p.protocol ≡ proto = eq-of-test p.protocol proto (ground (arith, h)) in
      elim (Bool-cases (port.name == "")) [
        | inl unnamed ↦ (
          record {
            protocol = same;
            name = inl (eq-of-test port.name "" unnamed);
            positive = ground (arith, h, unnamed);
          },
          ground (arith, unnamed),
        )
        | inr named ↦ elim (Bool-cases (port.name == p.name)) [
          | inl alike ↦ (
            record {
              protocol = same;
              name = inr (eq-of-test port.name p.name alike);
              positive = ground (arith, h, named, alike);
            },
            ground (arith, named, alike),
          )
          | inr other ↦ absurd (ground (arith, h, named, other))
        ]
      ]

  pub Fits-port_matches :
      (port : ServicePort) (proto : String) (p : EndpointPort)
      → Fits port proto p
      → (port_matches N port proto p ≡ true) × (target_port_of N port p ≡ p.port)
  unfolding port_matches target_port_of
  Fits-port_matches port proto p f =
      let same = test-of-eq p.protocol proto f.protocol in
      elim f.name [
        | inl unnamed ↦
            let e = test-of-eq port.name "" unnamed in
            (ground (arith, same, e, f.positive), ground (arith, e))
        | inr alike ↦
            let e = test-of-eq port.name p.name alike in
            (ground (arith, same, e, f.positive), ground (arith, e))
      ]

  pub all-IsFrom :
      (port : ServicePort) (proto : String) (sss : List EndpointSubset)
      → IsSound
          (IsFrom port proto sss)
          (add_subsets N port proto (record { servers = []; processed = [] }) sss)
  all-IsFrom port proto sss =
      add_subsets-IsSound (IsFrom port proto sss) port proto _ sss
        (All-of-members _ sss λ ss mss. All-of-members _ ss.ports λ p mp matches.
          let (fits, number) = port_matches-Fits port proto p matches in
          All-of-members _ ss.addresses λ a ma. Some-of-member _ sss ss mss (
            Some-of-member _ ss.ports p mp
              (fits, Some-of-member _ ss.addresses a ma (rw number refl))))
        (record { keys = λ k. refl; distinct = tt; all = tt })

  -- The endpoints of a service that is not external and whose subsets are known: no host and port
  -- occurs twice, and each of them is an address of a subset with a port of it that has the protocol,
  -- the name unless the service's port has none, and a positive number.
  pub get_endpoints_sound :
      (s : Service) (port : ServicePort) (proto : String)
      (lookup : String → Option (List EndpointSubset)) (sss : List EndpointSubset)
      → (s.service_type == external_name_type) ≡ false
      → lookup (meta_namespace_key s.namespace s.name) ≡ some sss
      → NoRepeats (joined (get_endpoints N (some s) (some port) proto lookup))
        × All (IsFrom port proto sss) (get_endpoints N (some s) (some port) proto lookup)
  unfolding get_endpoints
  get_endpoints_sound s port proto lookup sss internal known =
      let sound = all-IsFrom port proto sss in
      rw (internal, known, get_endpoints) (sound.distinct, sound.all)
