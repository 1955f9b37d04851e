-- ===== src/Controller/Secrets/Found.antt =====
-- The secret that extractTLSSecretName gives, section by section.
use ingress_nginx.Prelude.{
  some-injective, ℕ, Bool, ap, ne-of-test, true, false, Option, none, some, List, [], ◌∷◌, String,
  ◌≡◌, ◌≢◌, refl, ◌⊎◌, inl, inr, All, Some, Bool-cases, Option-cases, ◌==◌, string_eq, nat_eq,
  arith, eq-of-test,
}
use ingress_nginx.Api.{Tls}
use ingress_nginx.Panics.{Ends, Ends-bind, Ends-if, Ends-weaken, Ends-returns}
use ingress_nginx.Strings.{◌^^◌}
use ingress_nginx.Types.Ingress.{Ingress}
use ingress_nginx.Controller.Certificates.{CertificateView, to_lower_case_ascii, codes_equal}
use ingress_nginx.Controller.Secrets.SameName.{IsSameName, IsSameName-of_codes, codes-of_same_name}
use ingress_nginx.Controller.Secrets.{
  any_host, listed_secret, certificate_matches, section_matches, matching_secret,
  extract_tls_secret_name,
}

-- The section lists the host.
abbrev pub Lists : String → Tls → Type 0
Lists host t = Some (λ h. IsSameName h host) t.hosts

-- The section has a secret, the store has a certificate for it, and the certificate is valid for the host.
abbrev pub IsVerified : CertificateView → String → String → Tls → Type 0
IsVerified C host namespace t =
    (t.secret_name ≢ "")
    × ((a : ℕ) × (C.get_local_ssl_cert (namespace ^^ ("/" ^^ t.secret_name)) ≡ some a)
        × (C.has_certificate a ≡ true)
        × (C.verifies a host ≡ true))

-- `name` is the secret of the first section with the property.
abbrev pub IsFirst : (Tls → Type 0) → String → List Tls → Type 0
IsFirst P name [] = ⊥
IsFirst P name (t ∷ ts) = ((t.secret_name ≡ name) × P t) ⊎ ((P t → ⊥) × IsFirst P name ts)

abbrev pub HasNone : (Tls → Type 0) → List Tls → Type 0
HasNone P = All (λ t. P t → ⊥)

-- `name` is the secret of the first section that lists the host; without such a section it is the
-- secret of the first section whose certificate is valid for the host; without such a one it is empty.
abbrev pub IsSecretOf : CertificateView → String → Ingress → String → Type 0
IsSecretOf C host ing name =
    IsFirst (Lists host) name ing.tls
    ⊎ (HasNone (Lists host) ing.tls
        × (IsFirst (IsVerified C host ing.namespace) name ing.tls
            ⊎ (HasNone (IsVerified C host ing.namespace) ing.tls × (name ≡ ""))))

any_host-same :
    (host : String) (hs : List String) → any_host host hs ≡ true → Some (λ h. IsSameName h host) hs
unfolding any_host
any_host-same host [] e = cc
any_host-same host (h ∷ hs) e =
    elim (Bool-cases (codes_equal (to_lower_case_ascii h) (to_lower_case_ascii host))) [
      | inl same ↦ inl (IsSameName-of_codes h host same)
      | inr other ↦ inr (any_host-same host hs (ground (arith, e, other)))
    ]

any_host-other :
    (host : String) (hs : List String)
    → any_host host hs ≡ false
    → Some (λ h. IsSameName h host) hs
    → ⊥
unfolding any_host
any_host-other host [] e s = s
any_host-other host (h ∷ hs) e (inl same) =
    absurd (ground (arith, e, codes-of_same_name h host same))
any_host-other host (h ∷ hs) e (inr s) = any_host-other host hs (ground (arith, e)) s

listed_secret-some :
    (host name : String) (ts : List Tls)
    → listed_secret host ts ≡ some name
    → IsFirst (Lists host) name ts
unfolding listed_secret
listed_secret-some host name [] h = ground (arith, h)
listed_secret-some host name (t ∷ ts) h = elim (Bool-cases (any_host host t.hosts)) [
  | inl lists ↦ inl (ground (arith, h, lists), any_host-same host t.hosts lists)
  | inr other ↦ inr (
    any_host-other host t.hosts other,
    listed_secret-some host name ts (ground (arith, h, other)),
  )
]

listed_secret-none :
    (host : String) (ts : List Tls) → listed_secret host ts ≡ none → HasNone (Lists host) ts
unfolding listed_secret
listed_secret-none host [] h = tt
listed_secret-none host (t ∷ ts) h = elim (Bool-cases (any_host host t.hosts)) [
  | inl lists ↦ ground (arith, h, lists)
  | inr other ↦
      (any_host-other host t.hosts other, listed_secret-none host ts (ground (arith, h, other)))
]

-- A Boolean answer to a question.
abbrev Answers : Type 0 → Bool → Type 0
Answers P b = (b ≡ true → P) × (b ≡ false → P → ⊥)

-- What the second loop finds in the sections.
abbrev IsFound : CertificateView → String → String → List Tls → String → Type 0
IsFound C host namespace ts name =
    IsFirst (IsVerified C host namespace) name ts
    ⊎ (HasNone (IsVerified C host namespace) ts × (name ≡ ""))

later :
    (P : Tls → Type 0) (name : String) (t : Tls) (ts : List Tls)
    → (P t → ⊥)
    → IsFirst P name ts ⊎ (HasNone P ts × (name ≡ ""))
    → IsFirst P name (t ∷ ts) ⊎ (HasNone P (t ∷ ts) × (name ≡ ""))
later P name t ts other (inl s) = inl (inr (other, s))
later P name t ts other (inr (nowhere, empty)) = inr ((other, nowhere), empty)

module _ (C : CertificateView) (Q : Type 0) (nil : (a : ℕ) → C.has_certificate a ≡ false → Q) where
  certificate_matches-Ends :
      (host : String) (found : Option ℕ)
      → Ends Q (certificate_matches C host found) (
          Answers (
            (a : ℕ) × (found ≡ some a) × (C.has_certificate a ≡ true) × (C.verifies a host ≡ true)))
  unfolding certificate_matches
  certificate_matches-Ends host none = (λ h. ground (arith, h), λ h (a, e, _, _). cc)
  certificate_matches-Ends host (some a) =
      Ends-if Q (C.has_certificate a) (some (C.verifies a host)) none _
        (λ held. (
          λ h. (a, refl, held, h),
          λ h (b, e, _, v).
              absurd (ground (arith, h, v, ap (λ x. C.verifies x host) (some-injective e))),
        ))
        (λ missing. nil a missing)

  section_matches-Ends :
      (host namespace : String) (t : Tls)
      → Ends Q (section_matches C host namespace t) (Answers (IsVerified C host namespace t))
  unfolding section_matches
  section_matches-Ends host namespace t =
      Ends-if Q (t.secret_name == "") (some false) _ _
        (λ empty. (λ h. ground (arith, h), λ h v. v.0 (eq-of-test t.secret_name "" empty)))
        (λ set.
          Ends-weaken Q
            (certificate_matches C host
              (C.get_local_ssl_cert (namespace ^^ ("/" ^^ t.secret_name))))
            _ _
            (certificate_matches-Ends host
              (C.get_local_ssl_cert (namespace ^^ ("/" ^^ t.secret_name))))
            (λ stop a. (λ h. (ne-of-test t.secret_name "" set, a.0 h), λ h v. a.1 h v.1)))

  matching_secret-Ends :
      (host namespace : String) (ts : List Tls)
      → Ends Q (matching_secret C host namespace ts) (IsFound C host namespace ts)
  unfolding matching_secret
  matching_secret-Ends host namespace [] = inr (tt, refl)
  matching_secret-Ends host namespace (t ∷ ts) =
      Ends-bind Q (section_matches C host namespace t) _ _ _ (section_matches-Ends host namespace t)
        (λ stop v.
          Ends-if Q stop (some t.secret_name) (matching_secret C host namespace ts) _
            (λ stops. inl (inl (refl, v.0 stops)))
            (λ goes.
              Ends-weaken Q (matching_secret C host namespace ts) _ _
                (matching_secret-Ends host namespace ts)
                (λ name f. later (IsVerified C host namespace) name t ts (v.1 goes) f)))

  pub extract_tls_secret_name-Ends :
      (host : String) (ing : Ingress)
      → Ends Q (extract_tls_secret_name C host ing) (IsSecretOf C host ing)
  unfolding extract_tls_secret_name
  extract_tls_secret_name-Ends host ing = elim (Option-cases (listed_secret host ing.tls)) [
    | inl missing ↦
        rw (missing, Ends)
          (Ends-weaken Q (matching_secret C host ing.namespace ing.tls) _ _
            (matching_secret-Ends host ing.namespace ing.tls)
            (λ name f. inr (listed_secret-none host ing.tls missing, f)))
    | inr found ↦ rw (found.1, Ends) (inl (listed_secret-some host found.0 ing.tls found.1))
  ]

-- Where no stored certificate is nil, extractTLSSecretName returns for every host and ingress: the
-- secret of the first section that lists the host, up to the case of ASCII letters; without such a
-- section, the secret of the first section that names a secret whose certificate is in the store and
-- valid for the host; without such a section too, the empty name.
pub extract_tls_secret_name_lem :
    (C : CertificateView) (host : String) (ing : Ingress)
    → ((a : ℕ) → C.has_certificate a ≡ true)
    → (name : String) × (extract_tls_secret_name C host ing ≡ some name)
      × IsSecretOf C host ing name
extract_tls_secret_name_lem C host ing held =
    Ends-returns (extract_tls_secret_name C host ing) (IsSecretOf C host ing)
      (extract_tls_secret_name-Ends C ⊥ (λ a missing. ground (arith, held a)) host ing)
