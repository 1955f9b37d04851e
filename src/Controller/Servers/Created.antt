-- ===== src/Controller/Servers/Created.antt =====
-- What createServers promises.
use ingress_nginx.Prelude.{
  ℕ, true, false, none, some, List, [], ◌∷◌, Slice, elems, String, ◌≡◌, refl, arith, All,
  Bool-cases, inl, inr,
}
use ingress_nginx.Api.{Ref}
use ingress_nginx.Maps.{Map, member, contains}
use ingress_nginx.Maps.All.{AllFound}
use ingress_nginx.Panics.{Ends, Ends-bind, Ends-returns, Ends-found, Ends-sure, ◌>>=◌}
use ingress_nginx.StringSets.{StringSets}
use ingress_nginx.Types.Backend.{Backend}
use ingress_nginx.Types.Ingress.{Ingress}
use ingress_nginx.Controller.Certificates.{CertificateView}
use ingress_nginx.Controller.Servers.{Site, Settings, default_site, init_ingresses}
use ingress_nginx.Controller.Servers.Configure.{
  Configured, is_empty, configure_ingresses, set_aliases, create_servers,
}
use ingress_nginx.Controller.Servers.Rooted.{
  IsRooted, IsFresh, Holding, Grown, IsCovered, KeepsKeys-All,
}
use ingress_nginx.Controller.Servers.Initial.{default_site-Holding, init_ingresses-Grown}
use ingress_nginx.Controller.Servers.Configured.{
  IsCertified, IsServing, AreNoted, configure_ingresses-Configures,
}
use ingress_nginx.Controller.Servers.Aliases.{
  AvoidsHosts, Avoiding, set_aliases-AvoidsHosts, set_aliases-Grown,
}
use ingress_nginx.Controller.Upstreams.Merging.{def_server_name}

IsFresh-IsServing :
    (C : CertificateView) (settings : Settings) (k : String) (s : Site)
    → IsFresh settings.default_ssl_certificate k s
    → IsServing C settings k s
IsFresh-IsServing C settings k s f = record {
  rooted = f.rooted;
  proper = elim f.ssl_cert [ inl unset ↦ inl unset | inr usual ↦ inr (inl usual) ];
}

initial-AreNoted :
    (cert : Ref) (m : Map Site)
    → Holding (IsFresh cert) m
    → AreNoted (record { servers = m; all_aliases = [] })
initial-AreNoted cert m h = λ k s found set. ground (arith, (h.0 k s found).aliases, set)

is_empty-contains :
    (as' : Slice String) (x : String) → is_empty as' ≡ true → contains (elems as') x ≡ false
unfolding contains
is_empty-contains none x h = refl
is_empty-contains (some []) x h = refl
is_empty-contains (some (a ∷ as')) x h = ground (arith, h)

AreNoted-Avoiding : (c : Configured) → AreNoted c → Avoiding c.all_aliases c.servers
AreNoted-Avoiding c noted k s found = elim (Bool-cases (is_empty s.server.aliases)) [
  | inl empty ↦ inl (λ x h. ground (arith, is_empty-contains s.server.aliases x empty, h))
  | inr set ↦ inr (noted k s found set)
]

IsServing-blind :
    (C : CertificateView) (settings : Settings) (k : String) (s : Site) (as' : Slice String)
    → IsServing C settings k s
    → IsServing C settings k (record s { server = record s.server { aliases = as' } })
IsServing-blind C settings k s as' h = record {
  rooted = record {
    named = h.rooted.named;
    root = h.rooted.root;
    rest = h.rooted.rest;
    split = h.rooted.split;
    path = h.rooted.path;
    path_type = h.rooted.path_type;
  };
  proper = h.proper;
}

module _ (S : StringSets) (C : CertificateView) (settings : Settings) (fresh : String → ℕ)
    (ings : List Ingress) (upstreams : Map Backend) (du : Backend) where
  -- What holds of the servers at the end.
  abbrev Done : Map Site → Type 0
  Done n =
      Holding (IsServing C settings) n
      × All (IsCovered n) ings
      × AllFound (λ k s. AvoidsHosts n s) n

  finished :
      (Q : Type 0)
      → ((a : ℕ) → C.has_certificate a ≡ false → Q)
      → (m : Map Site) → Holding (IsFresh settings.default_ssl_certificate) m
      → All (IsCovered m) ings
      → Ends Q
          (configure_ingresses C settings ings (record { servers = m; all_aliases = [] }) >>= λ c.
            some (set_aliases S c.all_aliases c.servers))
          Done
  finished Q nil m fresh_ones covered =
      let start : Configured = record { servers = m; all_aliases = [] } in
      Ends-bind Q (configure_ingresses C settings ings start) _
        (λ c. Grown (IsServing C settings) m c.servers × AreNoted c) Done
        (configure_ingresses-Configures C settings Q nil ings start
          ((λ k s h. IsFresh-IsServing C settings k s (fresh_ones.0 k s h)), fresh_ones.1)
          (initial-AreNoted settings.default_ssl_certificate m fresh_ones) covered)
        (λ c g.
          let last =
            set_aliases-Grown S (IsServing C settings) (IsServing-blind C settings) c.all_aliases
              c.servers g.0.0 in
          (
            last.0,
            KeepsKeys-All c.servers (set_aliases S c.all_aliases c.servers) last.1 ings
                (KeepsKeys-All m c.servers g.0.1 ings covered),
            set_aliases-AvoidsHosts S c.all_aliases c.servers (AreNoted-Avoiding c g.1),
          ))

  created :
      (Q : Type 0)
      → ((a : ℕ) → C.has_certificate a ≡ false → Q)
      → Ends Q (create_servers S C settings fresh ings upstreams du) Done
  unfolding create_servers
  created Q nil =
      let start : Map Site = (def_server_name, default_site settings du) ∷ [] in
      let first = init_ingresses fresh upstreams du ings start in
      let Initial : Map Site → Type 0 =
        λ m. Grown (IsFresh settings.default_ssl_certificate) start m × All (IsCovered m) ings in
      Ends-bind Q first _ Initial Done
        (Ends-sure Q first Initial (
          init_ingresses-Grown settings.default_ssl_certificate fresh upstreams du ings start
            (default_site-Holding settings du)))
        (λ m g. finished Q nil m g.0.0 g.1)

  -- Where no stored certificate is nil, createServers returns: every server stands under its host name
  -- and begins with a Prefix location for the root, there is a server for the name "_", and every rule
  -- of an ingress that is not a canary has a server under its host.
  pub create_servers_total :
      ((a : ℕ) → C.has_certificate a ≡ true)
      → (n : Map Site) × (create_servers S C settings fresh ings upstreams du ≡ some n)
        × AllFound IsRooted n
        × (member def_server_name n ≡ true)
        × All (IsCovered n) ings
  create_servers_total held =
      let end =
        Ends-returns (create_servers S C settings fresh ings upstreams du) Done
          (created ⊥ (λ a missing. ground (arith, held a, missing))) in
      (end.0, end.1, (λ k s h. (end.2.0.0 k s h).rooted), end.2.0.1, end.2.1)

  -- Where createServers returns, no alias of a server is the host of a server.
  pub aliases_avoid_hosts :
      (n : Map Site)
      → create_servers S C settings fresh ings upstreams du ≡ some n
      → AllFound (λ k s. AvoidsHosts n s) n
  aliases_avoid_hosts n e =
      (Ends-found Unit (create_servers S C settings fresh ings upstreams du) Done n
        (created Unit (λ a missing. tt)) e).2

  -- Where createServers returns, the certificate of every server is missing, the default one, or one
  -- that is not nil and that VerifyHostname or the controller's own test accepts for the host.
  pub certificates_fit :
      (n : Map Site)
      → create_servers S C settings fresh ings upstreams du ≡ some n
      → AllFound (λ k s. IsCertified C settings k s.server.ssl_cert) n
  certificates_fit n e k s h =
      ((Ends-found Unit (create_servers S C settings fresh ings upstreams du) Done n
          (created Unit (λ a missing. tt)) e).0.0
        k s h).proper
