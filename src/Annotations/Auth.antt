-- ===== src/Annotations/Auth.antt =====
-- internal/ingress/annotations/auth/main.go: `Config` and `Equal`.
use ingress_nginx.Prelude.{
  Bool, IsEquiv, String, [], all_agree, bool_eq, equiv_rules, false, on, string_eq, ◌∷◌,
}

pub record Config : Type 0 where
  pub type : String
  pub realm : String
  pub file : String
  pub secured : Bool
  pub file_sha : String
  pub secret : String
  pub secret_type : String

-- The zero value.
abbrev pub zero_config : Config
zero_config = record {
  type = "";
  realm = "";
  file = "";
  secured = false;
  file_sha = "";
  secret = "";
  secret_type = "";
}

unfoldable pub equal : Config → Config → Bool
equal = all_agree (
    on (λ c. c.type)
    ∷ on (λ c. c.realm)
    ∷ on (λ c. c.file)
    ∷ on (λ c. c.secured)
    ∷ on (λ c. c.file_sha)
    ∷ on (λ c. c.secret)
    ∷ [])

pub equal-IsEquiv : IsEquiv equal
unfolding equal
equal-IsEquiv = search equiv_rules depth 30
