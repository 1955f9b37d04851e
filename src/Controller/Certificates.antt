-- ===== src/Controller/Certificates.antt =====
-- internal/ingress/controller/certificate.go: the test of a certificate for a host name.
use Prim.Native.Char.{code}
use ingress_nginx.Prelude.{
  ℕ, ◌+◌, Bool, true, false, not, ◌&&◌, ◌||◌, Option, none, some, List, [], ◌∷◌, String, ◌==◌,
  nat_eq, string_eq, leb, if◌then◌else◌,
}

-- The fields of x509.Certificate that the test reads; `has_ip` says whether an entry of IPAddresses
-- equals the address of a text.
pub record Certificate : Type 0 where
  pub dns_names : List String
  pub common_name : String
  pub has_ip : String → Bool

-- What the controller asks of certificates: `GetLocalSSLCert` of the store gives an address or an
-- error, `has_certificate` says whether the field Certificate is not nil, `certificate_at` is that
-- field, `verifies` is VerifyHostname of crypto/x509 on it, and `is_ip` whether net.ParseIP succeeds.
pub record CertificateView : Type 0 where
  pub get_local_ssl_cert : String → Option ℕ
  pub has_certificate : ℕ → Bool
  pub certificate_at : ℕ → Certificate
  pub verifies : ℕ → String → Bool
  pub is_ip : String → Bool

-- `toLowerCaseASCII`, as the code points of its result.
abbrev pub lower_code : ℕ → ℕ
lower_code c = if leb b'A' c && leb c b'Z' then c + 32 else c

unfoldable pub to_lower_case_ascii : String → List ℕ
to_lower_case_ascii String.[] = []
to_lower_case_ascii (String.◌∷◌ c s) = lower_code (code c) ∷ to_lower_case_ascii s

abbrev pub codes_equal : List ℕ → List ℕ → Bool
codes_equal [] [] = true
codes_equal (a ∷ as') (b ∷ bs) = a == b && codes_equal as' bs
codes_equal [] (b ∷ bs) = false
codes_equal (a ∷ as') [] = false

-- strings.TrimSuffix(s, ".")
unfoldable pub trim_last_dot : List ℕ → List ℕ
trim_last_dot [] = []
trim_last_dot (c ∷ []) = if c == b'.' then [] else c ∷ []
trim_last_dot (c ∷ d ∷ s) = c ∷ trim_last_dot (d ∷ s)

abbrev before_first : ℕ → List (List ℕ) → List (List ℕ)
before_first c [] = []
before_first c (s ∷ ss) = (c ∷ s) ∷ ss

-- strings.Split(s, ".")
unfoldable pub split_dot : List ℕ → List (List ℕ)
split_dot [] = [] ∷ []
split_dot (c ∷ s) = let rest = split_dot s in if c == b'.' then [] ∷ rest else before_first c rest

abbrev pub parts_equal : List (List ℕ) → List (List ℕ) → Bool
parts_equal [] [] = true
parts_equal (p ∷ ps) (h ∷ hs) = codes_equal p h && parts_equal ps hs
parts_equal [] (h ∷ hs) = false
parts_equal (p ∷ ps) [] = false

-- The loop over the parts, the first of which may be a star.
abbrev pub parts_match : List (List ℕ) → List (List ℕ) → Bool
parts_match [] [] = true
parts_match (p ∷ ps) (h ∷ hs) = (codes_equal p (b'*' ∷ []) || codes_equal p h) && parts_equal ps hs
parts_match [] (h ∷ hs) = false
parts_match (p ∷ ps) [] = false

abbrev pub is_empty_text : List ℕ → Bool
is_empty_text [] = true
is_empty_text (c ∷ s) = false

unfoldable pub match_hostnames : List ℕ → List ℕ → Bool
unfolding trim_last_dot split_dot
match_hostnames pattern host =
    let h = trim_last_dot host in
    let p = trim_last_dot pattern in
    not (is_empty_text p || is_empty_text h) && parts_match (split_dot p) (split_dot h)

-- The text without its last character, if that is a closing bracket.
abbrev without_bracket : String → Option String
without_bracket String.[] = none
without_bracket (String.◌∷◌ c String.[]) = if code c == b']' then some String.[] else none
without_bracket (String.◌∷◌ c (String.◌∷◌ d s)) = elim (without_bracket (String.◌∷◌ d s)) [
  | none ↦ none
  | some m ↦ some (String.◌∷◌ c m)
]

-- `candidateIP`: what stands between brackets, unless it is empty, or the whole text.
unfoldable pub candidate_ip : String → String
candidate_ip String.[] = String.[]
candidate_ip (String.◌∷◌ c s) =
    if code c == b'['
    then elim (without_bracket s) [
      | none ↦ String.◌∷◌ c s
      | some m ↦ if m == "" then String.◌∷◌ c s else m
    ]
    else String.◌∷◌ c s

unfoldable pub any_name : List String → List ℕ → Bool
unfolding match_hostnames to_lower_case_ascii
any_name [] lowered = false
any_name (n ∷ ns) lowered = match_hostnames (to_lower_case_ascii n) lowered || any_name ns lowered

-- `verifyHostname`: whether it returns nil
unfoldable pub verify_hostname : CertificateView → String → Certificate → Bool
unfolding candidate_ip any_name match_hostnames to_lower_case_ascii
verify_hostname C host c =
    let by_name : Bool = elim c.dns_names [
      | [] ↦ match_hostnames (to_lower_case_ascii c.common_name) (to_lower_case_ascii host)
      | n ∷ ns ↦ any_name (n ∷ ns) (to_lower_case_ascii host)
    ] in
    if C.is_ip (candidate_ip host) then c.has_ip (candidate_ip host) else by_name
