-- ===== src/Controller/Secrets.antt =====
-- internal/ingress/controller/controller.go, extractTLSSecretName: the secret with the certificate of a host.
pub mod SameName
pub mod Found
use Prim.Native.String
use ingress_nginx.Prelude.{
  ℕ, Bool, false, ◌||◌, Option, none, some, List, [], ◌∷◌, String, ◌==◌, nat_eq, string_eq,
  if◌then◌else◌,
}
use ingress_nginx.Api.{Tls}
use ingress_nginx.Controller.Certificates.{CertificateView, to_lower_case_ascii, codes_equal}
use ingress_nginx.Panics.{◌>>=◌}
use ingress_nginx.Strings.{◌^^◌}
use ingress_nginx.Types.Ingress.{Ingress}

unfoldable pub any_host : String → List String → Bool
unfolding to_lower_case_ascii
any_host host [] = false
any_host host (h ∷ hs) =
    codes_equal (to_lower_case_ascii h) (to_lower_case_ascii host) || any_host host hs

-- The first loop: the secret of the first section that lists the host.
unfoldable pub listed_secret : String → List Tls → Option String
unfolding any_host
listed_secret host [] = none
listed_secret host (t ∷ ts) =
    if any_host host t.hosts then some t.secret_name else listed_secret host ts

module _ (C : CertificateView) where
  open C use {get_local_ssl_cert, has_certificate, verifies}

  -- Whether a certificate, if there is one, is valid for the host; `none` is the panic of VerifyHostname
  -- on a nil certificate.
  unfoldable pub certificate_matches : String → Option ℕ → Option Bool
  certificate_matches host none = some false
  certificate_matches host (some a) = if has_certificate a then some (verifies a host) else none

  -- Whether the second loop stops at a section.
  unfoldable pub section_matches : String → String → Tls → Option Bool
  unfolding certificate_matches
  section_matches host namespace t =
      if t.secret_name == ""
      then some false
      else certificate_matches host (get_local_ssl_cert (namespace ^^ ("/" ^^ t.secret_name)))

  -- The second loop
  unfoldable pub matching_secret : String → String → List Tls → Option String
  unfolding section_matches
  matching_secret host namespace [] = some ""
  matching_secret host namespace (t ∷ ts) =
      let rest = matching_secret host namespace ts in
      section_matches host namespace t >>= λ stop. if stop then some t.secret_name else rest

  -- `extractTLSSecretName`, for an ingress that is not nil
  unfoldable pub extract_tls_secret_name : String → Ingress → Option String
  unfolding listed_secret matching_secret
  extract_tls_secret_name host ing = elim (listed_secret host ing.tls) [
    | some name ↦ some name
    | none ↦ matching_secret host ing.namespace ing.tls
  ]
