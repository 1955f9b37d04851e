-- ===== src/Controller/Dynamic/Laws.antt =====
-- Changes of endpoints and certificates need no reload.
use ingress_nginx.Prelude.{
  true, none, some, List, [], ◌∷◌, elems, len, ◌≡◌, refl, ap, subst, arith, nat_eq, length, suc,
}
use ingress_nginx.Api.{Ref}
use ingress_nginx.Equality.Configuration.{equal, equal-IsReflexive, servers_equal}
use ingress_nginx.Equality.Pointers.{equal_ptr, equal_in_order}
use ingress_nginx.Equality.Server as ServerEquality
use ingress_nginx.Types.Configuration.{Configuration}
use ingress_nginx.Types.Heap.{Heap}
use ingress_nginx.Controller.Dynamic.{
  clear_all, from_nil, elems-from_nil, clear_l4service_endpoints, clear_server, cleared_heap,
  copied, clear_certificates, cleared, is_dynamic_configuration_enough,
}

module _ (h : Heap) where
  -- The servers are alike in all but their certificates, and none of them is nil.
  abbrev pub SameServers : List Ref → List Ref → Type 0
  SameServers [] [] = Unit
  SameServers (some a ∷ rs) (some b ∷ ss) =
      (clear_server (h.server a) ≡ clear_server (h.server b)) × SameServers rs ss
  SameServers [] (s ∷ ss) = ⊥
  SameServers (r ∷ rs) [] = ⊥
  SameServers (none ∷ rs) (s ∷ ss) = ⊥
  SameServers (some a ∷ rs) (none ∷ ss) = ⊥

  copied-left : (rs ss : List Ref) → SameServers rs ss → copied rs ≡ some rs
  copied-left [] [] same = refl
  copied-left (some a ∷ rs) (some b ∷ ss) same = rw (copied-left rs ss same.1) refl
  copied-left [] (s ∷ ss) same = absurd same
  copied-left (r ∷ rs) [] same = absurd same
  copied-left (none ∷ rs) (s ∷ ss) same = absurd same
  copied-left (some a ∷ rs) (none ∷ ss) same = absurd same

  copied-right : (rs ss : List Ref) → SameServers rs ss → copied ss ≡ some ss
  copied-right [] [] same = refl
  copied-right (some a ∷ rs) (some b ∷ ss) same = rw (copied-right rs ss same.1) refl
  copied-right [] (s ∷ ss) same = absurd same
  copied-right (r ∷ rs) [] same = absurd same
  copied-right (none ∷ rs) (s ∷ ss) same = absurd same
  copied-right (some a ∷ rs) (none ∷ ss) same = absurd same

  len-from_nil : {A : Type 0} (as' : List A) → len (from_nil as') ≡ length as'
  len-from_nil [] = refl
  len-from_nil (a ∷ as') = refl

  same-in_order :
      (rs ss : List Ref)
      → SameServers rs ss
      → equal_in_order (ServerEquality.server_ptr_equal (cleared_heap h)) rs ss ≡ true
  unfolding equal_in_order ServerEquality.server_ptr_equal equal_ptr
  same-in_order [] [] same = refl
  same-in_order (some a ∷ rs) (some b ∷ ss) (same, rest) =
      let one = clear_server (h.server a) in
      let alike : ServerEquality.equal (cleared_heap h) one (clear_server (h.server b)) ≡ true =
        subst (λ s. ServerEquality.equal (cleared_heap h) one s ≡ true) same
          (ServerEquality.server_equal-IsReflexive (cleared_heap h) one) in
      ground (arith, alike, same-in_order rs ss rest)
  same-in_order [] (s ∷ ss) same = absurd same
  same-in_order (r ∷ rs) [] same = absurd same
  same-in_order (none ∷ rs) (s ∷ ss) same = absurd same
  same-in_order (some a ∷ rs) (none ∷ ss) same = absurd same

  same-length : (rs ss : List Ref) → SameServers rs ss → length rs ≡ length ss
  same-length [] [] same = refl
  same-length (some a ∷ rs) (some b ∷ ss) same = ap suc (same-length rs ss same.1)
  same-length [] (s ∷ ss) same = absurd same
  same-length (r ∷ rs) [] same = absurd same
  same-length (none ∷ rs) (s ∷ ss) same = absurd same
  same-length (some a ∷ rs) (none ∷ ss) same = absurd same

  -- The configurations differ only in backends, in the certificates of servers, and in the endpoints
  -- and services of stream services.
  pub record DifferDynamically (c d : Configuration) : Type 0 where
    pub servers : SameServers (elems c.servers) (elems d.servers)
    pub tcp : clear_all (elems c.tcp_endpoints) ≡ clear_all (elems d.tcp_endpoints)
    pub udp : clear_all (elems c.udp_endpoints) ≡ clear_all (elems d.udp_endpoints)
    pub passthrough : c.passthrough_backends ≡ d.passthrough_backends
    pub checksum : c.backend_config_checksum ≡ d.backend_config_checksum
    pub certificate : c.default_ssl_certificate ≡ d.default_ssl_certificate

  -- What is compared.
  abbrev cleared_of : Configuration → Configuration
  cleared_of c = record c {
    backends = some [];
    servers = from_nil (elems c.servers);
    tcp_endpoints = from_nil (clear_all (elems c.tcp_endpoints));
    udp_endpoints = from_nil (clear_all (elems c.udp_endpoints));
  }

  cleared-of_copied :
      (c : Configuration)
      → copied (elems c.servers) ≡ some (elems c.servers)
      → cleared c ≡ some (cleared_of c)
  unfolding cleared clear_certificates clear_l4service_endpoints
  cleared-of_copied c whole = ground (arith, whole)

  cleared-equal :
      (c d : Configuration)
      → DifferDynamically c d
      → equal (cleared_heap h) (cleared_of c) (cleared_of d) ≡ true
  unfolding equal servers_equal
  cleared-equal c d o =
      let x = cleared_of c in
      let y = cleared_of d in
      let h' = cleared_heap h in
      let in_order : servers_equal h' x.servers y.servers ≡ true =
        rw (elems-from_nil (elems c.servers)) (
          rw (elems-from_nil (elems d.servers))
            (same-in_order (elems c.servers) (elems d.servers) o.servers)) in
      let size : len x.servers ≡ len y.servers = rw (len-from_nil (elems c.servers)) (
        rw (len-from_nil (elems d.servers))
          (same-length (elems c.servers) (elems d.servers) o.servers)) in
      ground (
        arith,
        equal-IsReflexive h' x,
        in_order,
        size,
        o.tcp,
        o.udp,
        o.passthrough,
        o.checksum,
        o.certificate,
      )

  -- Of two configurations with no nil server that differ only in backends, in the certificates of
  -- servers, and in the endpoints and services of stream services, `IsDynamicConfigurationEnough`
  -- returns true.
  pub dynamic_is_enough :
      (running pcfg : Configuration)
      → DifferDynamically running pcfg
      → is_dynamic_configuration_enough h running pcfg ≡ some true
  unfolding is_dynamic_configuration_enough
  dynamic_is_enough running pcfg o =
      let first =
        cleared-of_copied running
          (copied-left (elems running.servers) (elems pcfg.servers) o.servers) in
      let second =
        cleared-of_copied pcfg
          (copied-right (elems running.servers) (elems pcfg.servers) o.servers) in
      rw (first, is_dynamic_configuration_enough)
        (rw second (rw (cleared-equal running pcfg o) refl))
