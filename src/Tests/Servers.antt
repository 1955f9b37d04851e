-- ===== src/Tests/Servers.antt =====
-- Runs of the creation of servers.
use ingress_nginx.Prelude.{
  true, false, Option, none, some, [], ◌∷◌, ◌≡◌, if◌then◌else◌, ◌==◌, refl, String, string_eq,
  nat_eq, pos, All,
}
use ingress_nginx.Maps.{Map, get, member, contains}
use ingress_nginx.Maps.All.{AllFound}
use ingress_nginx.StringSets.{list_sets, add}
use ingress_nginx.Types.Annotations.{zero_annotations}
use ingress_nginx.Types.Backend.{Backend, zero_backend}
use ingress_nginx.Types.Ingress.{Ingress}
use ingress_nginx.Controller.Certificates.{CertificateView, verify_hostname, candidate_ip}
use ingress_nginx.Controller.Secrets.{extract_tls_secret_name}
use ingress_nginx.Controller.Secrets.Found.{extract_tls_secret_name_lem, IsSecretOf}
use ingress_nginx.Controller.Servers.{Site, Settings}
use ingress_nginx.Controller.Servers.Configure.{create_servers}
use ingress_nginx.Controller.Servers.Rooted.{IsRooted, IsCovered}
use ingress_nginx.Controller.Servers.Configured.{IsCertified}
use ingress_nginx.Controller.Servers.Aliases.{AvoidsHosts}
use ingress_nginx.Controller.Servers.Created.{
  create_servers_total, aliases_avoid_hosts, certificates_fit,
}

-- One certificate, for a.example.
abbrev pub certificates : CertificateView
certificates = record {
  get_local_ssl_cert = λ k. if k == "default/web-tls" then some 7 else none;
  has_certificate = λ a. true;
  verifies = λ a host. host == "a.example";
  certificate_at =
      λ a. record { dns_names = "*.b.example" ∷ []; common_name = ""; has_ip = λ h. false };
  is_ip = λ h. false;
}

-- A secret with a certificate authority only.
abbrev authority_only : CertificateView
authority_only = record certificates { has_certificate = λ a. false }

abbrev pub settings : Settings
settings = record {
  proxy_body_size = "1m";
  proxy_connect_timeout = pos 5;
  proxy_send_timeout = pos 60;
  proxy_read_timeout = pos 60;
  proxy_buffers_number = pos 4;
  proxy_buffer_size = "4k";
  proxy_cookie_domain = "off";
  proxy_cookie_path = "off";
  proxy_next_upstream = "error timeout";
  proxy_next_upstream_timeout = pos 0;
  proxy_next_upstream_tries = pos 3;
  proxy_request_buffering = "on";
  proxy_redirect_from = "off";
  proxy_buffering = "off";
  proxy_http_version = "1.1";
  proxy_max_temp_file_size = "1024m";
  access_log = true;
  default_ssl_certificate = some 1;
}

abbrev pub web : Ingress
web = record {
  namespace = "default";
  name = "web";
  raw_annotations = [];
  backend = none;
  rules =
      record { host = "a.example"; http = none } ∷ record { host = "b.example"; http = none } ∷ [];
  tls = record { hosts = []; secret_name = "web-tls" } ∷ [];
  parsed_annotations = record zero_annotations { aliases = some ("b.example" ∷ "c.example" ∷ []) };
}

abbrev pub unknown : Backend
unknown = record zero_backend { name = "upstream-default-backend" }

abbrev run : CertificateView → Option (Map Site)
run c = create_servers list_sets c settings (λ host. 9) (web ∷ []) [] unknown

abbrev made : Map Site
unfolding create_servers
made = elim (run certificates) [ none ↦ [] | some m ↦ m ]

returns : run certificates ≡ some made
unfolding create_servers made add
returns = refl

-- A nil certificate stops the program.
panics : run authority_only ≡ none
unfolding create_servers
panics = refl

-- The alias that is the host of a server is dropped, the other one stays.
aliases_of_a :
    elim (get "a.example" made) [ none ↦ none | some s ↦ s.server.aliases ]
    ≡ some ("c.example" ∷ [])
unfolding create_servers made add get contains
aliases_of_a = refl

certificate_of_a : elim (get "a.example" made) [ none ↦ none | some s ↦ s.server.ssl_cert ] ≡ some 7
unfolding create_servers made add get contains
certificate_of_a = refl

create_servers_total_example :
    (n : Map Site) × (create_servers list_sets certificates settings
        (λ host. 9)
        (web ∷ [])
        []
        unknown
      ≡ some n)
    × AllFound IsRooted n
    × (member "_" n ≡ true)
    × All (IsCovered n) (web ∷ [])
create_servers_total_example =
    create_servers_total list_sets certificates settings (λ host. 9) (web ∷ []) [] unknown
      (λ a. refl)

aliases_avoid_hosts_example : AllFound (λ k s. AvoidsHosts made s) made
aliases_avoid_hosts_example =
    aliases_avoid_hosts list_sets certificates settings (λ host. 9) (web ∷ []) [] unknown made
      returns

certificates_fit_example :
    AllFound (λ k s. IsCertified certificates settings k s.server.ssl_cert) made
certificates_fit_example =
    certificates_fit list_sets certificates settings (λ host. 9) (web ∷ []) [] unknown made returns

extract_tls_secret_name_lem_example :
    (name : String) × (extract_tls_secret_name certificates "a.example" web ≡ some name)
    × IsSecretOf certificates "a.example" web name
extract_tls_secret_name_lem_example =
    extract_tls_secret_name_lem certificates "a.example" web (λ a. refl)

-- A star stands for one part of a name.
wildcards :
    (verify_hostname certificates "www.B.example" (certificates.certificate_at 7) ≡ true)
    × (verify_hostname certificates "b.example" (certificates.certificate_at 7) ≡ false)
    × (verify_hostname certificates "x.www.b.example" (certificates.certificate_at 7) ≡ false)
    × (candidate_ip "[::1]" ≡ "::1")
    × (candidate_ip "[]" ≡ "[]")
unfolding verify_hostname candidate_ip
wildcards = (refl, refl, refl, refl, refl)

-- The case of the letters does not count, and every host of a section does.
listed_in_capitals :
    extract_tls_secret_name certificates "b.example" (record web {
      tls =
          record { hosts = "c.example" ∷ []; secret_name = "c" }
          ∷ record { hosts = "d.example" ∷ "B.Example" ∷ []; secret_name = "b" }
          ∷ [];
    })
    ≡ some "b"
unfolding extract_tls_secret_name
listed_in_capitals = refl
