-- ===== src/Controller/Servers/Configure.antt =====
-- internal/ingress/controller/controller.go, createServers: the second loop over the ingresses, which
-- sets aliases, snippets, ciphers and certificates, and the loop over the aliases.
use ingress_nginx.Prelude.{
  ℕ, Bool, true, false, not, ◌&&◌, ◌||◌, Option, none, some, List, [], ◌∷◌, Slice, elems, String,
  ◌==◌, string_eq, if◌then◌else◌,
}
use ingress_nginx.Api.{Ref, Rule, Tls}
use ingress_nginx.Maps.{Map, get, put, member}
use ingress_nginx.Panics.{◌>>=◌}
use ingress_nginx.Strings.{◌^^◌}
use ingress_nginx.StringSets.{StringSets}
use ingress_nginx.Types.Backend.{Backend}
use ingress_nginx.Types.Ingress.{Ingress}
use ingress_nginx.Types.Server.{Server}
use ingress_nginx.Controller.Certificates.{CertificateView, verify_hostname}
use ingress_nginx.Controller.Secrets.{extract_tls_secret_name}
use ingress_nginx.Controller.Servers.{Site, Settings, host_of, default_site, init_ingresses}
use ingress_nginx.Controller.Upstreams.Merging.{def_server_name}

-- `servers` and `allAliases`.
pub record Configured : Type 0 where
  pub servers : Map Site
  pub all_aliases : Map (Slice String)

abbrev pub is_empty {ℓ} : {A : Type ℓ} → Slice A → Bool
is_empty s = elim (elems s) [ [] ↦ true | a ∷ as' ↦ false ]

-- The value, or the other one if it is empty.
abbrev pub or_set : String → String → String
or_set old new = if old == "" then new else old

-- The server with aliases, snippet and ciphers.
unfoldable pub with_annotations : Ingress → Server → Server
with_annotations ing s = record s {
  aliases = if is_empty s.aliases then ing.parsed_annotations.aliases else s.aliases;
  server_snippet = or_set s.server_snippet ing.parsed_annotations.server_snippet;
  ssl_ciphers = or_set s.ssl_ciphers ing.parsed_annotations.ssl_cipher.ssl_ciphers;
  ssl_prefer_server_ciphers =
      or_set s.ssl_prefer_server_ciphers
        ing.parsed_annotations.ssl_cipher.ssl_prefer_server_ciphers;
}

-- The aliases of the ingress for a host that has none so far.
unfoldable pub note_aliases : Ingress → String → Site → Map (Slice String) → Map (Slice String)
unfolding get put
note_aliases ing host site all =
    let noted : Bool = elim (get host all) [ none ↦ false | some as' ↦ not (is_empty as') ] in
    if is_empty site.server.aliases && not noted
    then put host ing.parsed_annotations.aliases all
    else all

module _ (C : CertificateView) (settings : Settings) where
  open C use {get_local_ssl_cert, has_certificate, verifies, certificate_at}

  -- A stored certificate that fits the host, or the default one.
  unfoldable pub stored_certificate : String → Option ℕ → Ref
  unfolding verify_hostname
  stored_certificate host none = settings.default_ssl_certificate
  stored_certificate host (some a) =
      if has_certificate a && (verifies a host || verify_hostname C host (certificate_at a))
      then some a
      else settings.default_ssl_certificate

  -- The certificate of the secret `name`, or the default one.
  unfoldable pub certificate_of : String → String → String → Ref
  unfolding stored_certificate
  certificate_of host namespace name =
      if name == ""
      then settings.default_ssl_certificate
      else stored_certificate host (get_local_ssl_cert (namespace ^^ ("/" ^^ name)))

  -- The certificate of a server that has `cert`, under the sections `tls` of the ingress.
  unfoldable pub certified : Ingress → String → Ref → List Tls → Option Ref
  unfolding extract_tls_secret_name certificate_of
  certified ing host (some a) tls = some (some a)
  certified ing host none [] = some none
  certified ing host none (t ∷ ts) =
      extract_tls_secret_name C host ing >>= λ name. some (certificate_of host ing.namespace name)

  -- The body of the loop over the rules.
  unfoldable pub configure_rule : Ingress → String → Configured → Option Configured
  unfolding get put with_annotations certified note_aliases
  configure_rule ing host c = get host c.servers >>= λ site.
      certified ing host site.server.ssl_cert ing.tls >>= λ cert. some (record {
        servers =
            put host
              (record site {
                server = with_annotations ing (record site.server { ssl_cert = cert });
              })
              c.servers;
        all_aliases = note_aliases ing host site c.all_aliases;
      })

  unfoldable pub configure_rules : Ingress → List Rule → Configured → Option Configured
  unfolding configure_rule
  configure_rules ing [] c = some c
  configure_rules ing (r ∷ rs) c = configure_rule ing (host_of r) c >>= configure_rules ing rs

  unfoldable pub configure_ingresses : List Ingress → Configured → Option Configured
  unfolding configure_rules
  configure_ingresses [] c = some c
  configure_ingresses (ing ∷ ings) c =
      (if ing.parsed_annotations.canary.enabled then some c else configure_rules ing ing.rules c)
      >>= configure_ingresses ings

module _ (S : StringSets) where
  open S use {Set, empty, insert, has, list}

  -- The loop over the aliases of one host.
  unfoldable pub unique_aliases : String → Map Site → List String → Set → Set
  unfolding get
  unique_aliases host servers [] seen = seen
  unique_aliases host servers (alias ∷ as') seen =
      unique_aliases host servers as' (
        if alias == host || member alias servers || has seen alias then seen else insert alias seen)

  -- The server with its unique aliases, if there is one.
  unfoldable pub set_host_aliases : String → Slice String → Map Site → Map Site
  unfolding get put unique_aliases
  set_host_aliases host as' servers = elim (get host servers) [
    | none ↦ servers
    | some site ↦
        put host
          (record site {
            server = record site.server {
              aliases = some (list (unique_aliases host servers (elems as') empty));
            };
          })
          servers
  ]

  unfoldable pub set_aliases : Map (Slice String) → Map Site → Map Site
  unfolding set_host_aliases
  set_aliases [] servers = servers
  set_aliases ((host, as') ∷ all) servers = set_aliases all (set_host_aliases host as' servers)

  -- `createServers`
  unfoldable pub create_servers :
      CertificateView
      → Settings
      → (String → ℕ)
      → List Ingress
      → Map Backend
      → Backend
      → Option (Map Site)
  unfolding default_site init_ingresses configure_ingresses set_aliases
  create_servers C settings fresh ings upstreams du =
      init_ingresses fresh upstreams du ings ((def_server_name, default_site settings du) ∷ [])
      >>= λ m.
          configure_ingresses C settings ings (record { servers = m; all_aliases = [] }) >>= λ c.
          some (set_aliases c.all_aliases c.servers)
