-- ===== src/Annotations/SessionAffinity.antt =====
-- internal/ingress/annotations/sessionaffinity/main.go: `Config`, with its embedded `Cookie`.
use ingress_nginx.Prelude.{Bool, String, false}

pub record Cookie : Type 0 where
  pub name : String
  pub expires : String
  pub max_age : String
  pub path : String
  pub change_on_failure : Bool
  pub same_site : String
  pub conditional_same_site_none : Bool

-- The zero value.
abbrev pub zero_cookie : Cookie
zero_cookie = record {
  name = "";
  expires = "";
  max_age = "";
  path = "";
  change_on_failure = false;
  same_site = "";
  conditional_same_site_none = false;
}

pub record Config : Type 0 where
  pub type : String
  pub mode : String
  pub cookie : Cookie

-- The zero value.
abbrev pub zero_config : Config
zero_config = record { type = ""; mode = ""; cookie = zero_cookie }
