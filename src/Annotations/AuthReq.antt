-- ===== src/Annotations/AuthReq.antt =====
-- internal/ingress/annotations/authreq/main.go: `Config` and `Equal`.
use ingress_nginx.Prelude.{
  Bool, IsEquiv, List, Option, Slice, String, [], all_agree, equiv_rules, none, on, string_eq, via,
  ◌∷◌,
}
use ingress_nginx.Sets.{string_elements_match}
use ingress_nginx.Sets.Laws.{string_elements_match-IsEquiv}

pub record Config : Type 0 where
  pub url : String
  pub host : String
  pub signin_url : String
  pub signin_url_redirect_param : String
  pub method : String
  pub response_headers : Slice String
  pub request_redirect : String
  pub auth_snippet : String
  pub auth_cache_key : String
  pub auth_cache_duration : Slice String
  pub proxy_set_headers : Option (List (String × String))

-- The zero value.
abbrev pub zero_config : Config
zero_config = record {
  url = "";
  host = "";
  signin_url = "";
  signin_url_redirect_param = "";
  method = "";
  response_headers = none;
  request_redirect = "";
  auth_snippet = "";
  auth_cache_key = "";
  auth_cache_duration = none;
  proxy_set_headers = none;
}

unfoldable pub equal : Config → Config → Bool
equal = all_agree (
    on (λ c. c.url)
    ∷ on (λ c. c.host)
    ∷ on (λ c. c.signin_url)
    ∷ on (λ c. c.signin_url_redirect_param)
    ∷ on (λ c. c.method)
    ∷ via string_elements_match (λ c. c.response_headers)
    ∷ on (λ c. c.request_redirect)
    ∷ on (λ c. c.auth_snippet)
    ∷ on (λ c. c.auth_cache_key)
    ∷ via string_elements_match (λ c. c.auth_cache_duration)
    ∷ [])

pub equal-IsEquiv : IsEquiv equal
unfolding equal
equal-IsEquiv = search (equiv_rules, string_elements_match-IsEquiv) depth 30
