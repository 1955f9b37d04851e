-- ===== src/Controller/Servers/Configured.antt =====
-- What the second loop of createServers makes of the servers: certificates that are valid for their
-- hosts, and aliases that are noted.
use ingress_nginx.Prelude.{
  ℕ, true, false, ◌&&◌, ◌||◌, Option, none, some, List, [], ◌∷◌, Slice, String, ◌==◌, string_eq,
  if◌then◌else◌, ◌≡◌, refl, arith, All, Bool-cases, Option-cases, inl, inr, ◌⊎◌, if-cases,
}
use ingress_nginx.Api.{Ref, Rule, Tls}
use ingress_nginx.Maps.{Map, get, put, member}
use ingress_nginx.Maps.All.{
  AllFound, put-AllFound, put-KeepsKeys, put-has_key, found-of-member, member-of-found,
}
use ingress_nginx.Panics.{Ends, Ends-bind, Ends-if, Ends-of, Ends-weaken}
use ingress_nginx.Types.Ingress.{Ingress}
use ingress_nginx.Strings.{◌^^◌}
use ingress_nginx.Controller.Certificates.{CertificateView, verify_hostname}
use ingress_nginx.Controller.Secrets.{extract_tls_secret_name}
use ingress_nginx.Controller.Secrets.Found.{extract_tls_secret_name-Ends, IsSecretOf}
use ingress_nginx.Controller.Servers.{Site, Settings, host_of}
use ingress_nginx.Controller.Servers.Configure.{
  Configured, is_empty, with_annotations, stored_certificate, certificate_of, certified,
  note_aliases, configure_rule, configure_rules, configure_ingresses,
}
use ingress_nginx.Controller.Servers.Rooted.{
  IsRooted, Holding, Grown, Grown-refl, Grown-trans, put-Grown, HasHosts, IsCovered,
  KeepsKeys-HasHosts, KeepsKeys-All,
}

-- No certificate, the default one, or one that is there and that one of the two tests accepts for the host.
abbrev pub IsCertified : CertificateView → Settings → String → Ref → Type 0
IsCertified C settings host cert =
    (cert ≡ none)
    ⊎ (cert ≡ settings.default_ssl_certificate)
    ⊎ ((a : ℕ) × (cert ≡ some a)
        × (C.has_certificate a ≡ true)
        × ((C.verifies a host || verify_hostname C host (C.certificate_at a)) ≡ true))

-- A server under its host, with a root location and a proper certificate.
pub record IsServing (C : CertificateView) (settings : Settings) (k : String) (s : Site)
    : Type 0 where
  pub rooted : IsRooted k s
  pub proper : IsCertified C settings k s.server.ssl_cert

-- The aliases of every server that has some are noted.
abbrev pub AreNoted : Configured → Type 0
AreNoted c =
    AllFound (λ k s. is_empty s.server.aliases ≡ false → member k c.all_aliases ≡ true) c.servers

note_aliases-noted :
    (ing : Ingress) (host : String) (site : Site) (all : Map (Slice String))
    → (is_empty site.server.aliases ≡ false → member host all ≡ true)
    → is_empty (with_annotations ing site.server).aliases ≡ false
    → member host (note_aliases ing host site all) ≡ true
unfolding note_aliases with_annotations
note_aliases-noted ing host site all old h =
    if-cases (λ m. member host m ≡ true) _ (put host ing.parsed_annotations.aliases all) all
      (λ new. put-has_key host ing.parsed_annotations.aliases all)
      (λ kept. elim (Bool-cases (is_empty site.server.aliases)) [
        | inl empty ↦ elim (Option-cases (get host all)) [
          | inl missing ↦ ground (arith, kept, empty, missing)
          | inr found ↦ member-of-found host found.0 all found.1
        ]
        | inr set ↦ old set
      ])

note_aliases-KeepsKeys :
    (ing : Ingress) (host : String) (site : Site) (all : Map (Slice String)) (k : String)
    → member k all ≡ true
    → member k (note_aliases ing host site all) ≡ true
unfolding note_aliases
note_aliases-KeepsKeys ing host site all k h =
    if-cases (λ m. member k m ≡ true) _ (put host ing.parsed_annotations.aliases all) all
      (λ new. put-KeepsKeys host ing.parsed_annotations.aliases all k h) (λ kept. h)

module _ (C : CertificateView) (settings : Settings) where
  stored_certificate-IsCertified :
      (host : String) (found : Option ℕ)
      → IsCertified C settings host (stored_certificate C settings host found)
  unfolding stored_certificate
  stored_certificate-IsCertified host none = inr (inl refl)
  stored_certificate-IsCertified host (some a) =
      if-cases (IsCertified C settings host)
        (C.has_certificate a && (C.verifies a host || verify_hostname C host (C.certificate_at a)))
        _ _ (λ fits. inr (inr (a, refl, ground (arith, fits), ground (arith, fits))))
        (λ other. inr (inl refl))

  certificate_of-IsCertified :
      (host namespace name : String)
      → IsCertified C settings host (certificate_of C settings host namespace name)
  unfolding certificate_of
  certificate_of-IsCertified host namespace name =
      if-cases (IsCertified C settings host) (name == "") _ _ (λ empty. inr (inl refl))
        (λ set.
          stored_certificate-IsCertified host (C.get_local_ssl_cert (namespace ^^ ("/" ^^ name))))

  module _ (Q : Type 0) (nil : (a : ℕ) → C.has_certificate a ≡ false → Q) where
    certified-IsCertified :
        (ing : Ingress) (host : String) (cert : Ref) (tls : List Tls)
        → IsCertified C settings host cert
        → Ends Q (certified C settings ing host cert tls) (IsCertified C settings host)
    unfolding certified
    certified-IsCertified ing host (some a) tls h = h
    certified-IsCertified ing host none [] h = h
    certified-IsCertified ing host none (t ∷ ts) h =
        Ends-bind Q (extract_tls_secret_name C host ing) _ (IsSecretOf C host ing) _
          (extract_tls_secret_name-Ends C Q nil host ing)
          (λ name found. certificate_of-IsCertified host ing.namespace name)

    -- What a step makes of the configured servers.
    abbrev pub Configures : Configured → Configured → Type 0
    Configures c d = Grown (IsServing C settings) c.servers d.servers × AreNoted d

    -- What the loop finds of one server.
    abbrev Found : String → Configured → Site → Type 0
    Found host c s =
        IsServing C settings host s
        × (is_empty s.server.aliases ≡ false → member host c.all_aliases ≡ true)

    with_annotations-IsServing :
        (ing : Ingress) (host : String) (site : Site) (cert : Ref)
        → IsServing C settings host site
        → IsCertified C settings host cert
        → IsServing C settings host
            (record site { server = with_annotations ing (record site.server { ssl_cert = cert }) })
    unfolding with_annotations
    with_annotations-IsServing ing host site cert old proper = record {
      rooted = record {
        named = old.rooted.named;
        root = old.rooted.root;
        rest = old.rooted.rest;
        split = old.rooted.split;
        path = old.rooted.path;
        path_type = old.rooted.path_type;
      };
      proper = proper;
    }

    configured_as : Ingress → String → Configured → Site → Ref → Configured
    configured_as ing host c site cert = record {
      servers =
          put host
            (record site { server = with_annotations ing (record site.server { ssl_cert = cert }) })
            c.servers;
      all_aliases = note_aliases ing host site c.all_aliases;
    }

    configured_as-AreNoted :
        (ing : Ingress) (host : String) (c : Configured) (site : Site) (cert : Ref)
        → AreNoted c
        → (is_empty site.server.aliases ≡ false → member host c.all_aliases ≡ true)
        → AreNoted (configured_as ing host c site cert)
    unfolding configured_as with_annotations
    configured_as-AreNoted ing host c site cert noted old =
        put-AllFound
          (λ k s.
            is_empty s.server.aliases ≡ false
            → member k (note_aliases ing host site c.all_aliases) ≡ true)
          host _ c.servers (note_aliases-noted ing host site c.all_aliases old)
          (λ k s found h. note_aliases-KeepsKeys ing host site c.all_aliases k (noted k s found h))

    configure_rule-Configures :
        (ing : Ingress) (host : String) (c : Configured)
        → Holding (IsServing C settings) c.servers
        → AreNoted c
        → member host c.servers ≡ true
        → Ends Q (configure_rule C settings ing host c) (Configures c)
    unfolding configure_rule configured_as
    configure_rule-Configures ing host c serving noted held =
        let found = found-of-member host c.servers held in
        Ends-bind Q (get host c.servers) _ (Found host c) (Configures c)
          (Ends-of Q (get host c.servers) (Found host c) found.0 found.1
            (serving.0 host found.0 found.1, noted host found.0 found.1))
          (λ site old.
            Ends-bind Q (certified C settings ing host site.server.ssl_cert ing.tls) _
              (IsCertified C settings host) (Configures c)
              (certified-IsCertified ing host site.server.ssl_cert ing.tls old.0.proper)
              (λ cert proper. (
                put-Grown (IsServing C settings) host _ c.servers serving
                    (with_annotations-IsServing ing host site cert old.0 proper),
                configured_as-AreNoted ing host c site cert noted old.1,
              )))

    Configures-trans : (c d e : Configured) → Configures c d → Configures d e → Configures c e
    Configures-trans c d e g h =
        (Grown-trans (IsServing C settings) c.servers d.servers e.servers g.0 h.0, h.1)

    configure_rules-Configures :
        (ing : Ingress) (rs : List Rule) (c : Configured)
        → Holding (IsServing C settings) c.servers
        → AreNoted c
        → HasHosts rs c.servers
        → Ends Q (configure_rules C settings ing rs c) (Configures c)
    unfolding configure_rules
    configure_rules-Configures ing [] c serving noted h =
        (Grown-refl (IsServing C settings) c.servers serving, noted)
    configure_rules-Configures ing (r ∷ rs) c serving noted h =
        Ends-bind Q (configure_rule C settings ing (host_of r) c) _ (Configures c) (Configures c)
          (configure_rule-Configures ing (host_of r) c serving noted h.0)
          (λ d g.
            Ends-weaken Q (configure_rules C settings ing rs d) (Configures d) (Configures c)
              (configure_rules-Configures ing rs d g.0.0 g.1
                (KeepsKeys-HasHosts c.servers d.servers g.0.1 rs h.1))
              (λ e. Configures-trans c d e g))

    pub configure_ingresses-Configures :
        (ings : List Ingress) (c : Configured)
        → Holding (IsServing C settings) c.servers
        → AreNoted c
        → All (IsCovered c.servers) ings
        → Ends Q (configure_ingresses C settings ings c) (Configures c)
    unfolding configure_ingresses
    configure_ingresses-Configures [] c serving noted h =
        (Grown-refl (IsServing C settings) c.servers serving, noted)
    configure_ingresses-Configures (ing ∷ ings) c serving noted h =
        Ends-bind Q
          (if ing.parsed_annotations.canary.enabled
            then some c
            else configure_rules C settings ing ing.rules c)
          _ (Configures c) (Configures c)
          (Ends-if Q ing.parsed_annotations.canary.enabled (some c)
            (configure_rules C settings ing ing.rules c) (Configures c)
            (λ marked. (Grown-refl (IsServing C settings) c.servers serving, noted))
            (λ plain. elim h.0 [
              | inl marked ↦ ground (arith, marked, plain)
              | inr hosts ↦ configure_rules-Configures ing ing.rules c serving noted hosts
            ]))
          (λ d g.
            Ends-weaken Q (configure_ingresses C settings ings d) (Configures d) (Configures c)
              (configure_ingresses-Configures ings d g.0.0 g.1
                (KeepsKeys-All c.servers d.servers g.0.1 ings h.1))
              (λ e. Configures-trans c d e g))
