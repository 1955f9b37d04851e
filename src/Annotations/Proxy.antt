-- ===== src/Annotations/Proxy.antt =====
-- internal/ingress/annotations/proxy/main.go: `Config` and `Equal`.
use ingress_nginx.Prelude.{
  Bool, IsEquiv, String, [], all_agree, equiv_rules, int_eq, on, pos, string_eq, ℤ, ◌∷◌,
}

pub record Config : Type 0 where
  pub body_size : String
  pub connect_timeout : ℤ
  pub send_timeout : ℤ
  pub read_timeout : ℤ
  pub buffers_number : ℤ
  pub buffer_size : String
  pub cookie_domain : String
  pub cookie_path : String
  pub next_upstream : String
  pub next_upstream_timeout : ℤ
  pub next_upstream_tries : ℤ
  pub proxy_redirect_from : String
  pub proxy_redirect_to : String
  pub request_buffering : String
  pub proxy_buffering : String
  pub proxy_http_version : String
  pub proxy_max_temp_file_size : String

-- The zero value.
abbrev pub zero_config : Config
zero_config = record {
  body_size = "";
  connect_timeout = pos 0;
  send_timeout = pos 0;
  read_timeout = pos 0;
  buffers_number = pos 0;
  buffer_size = "";
  cookie_domain = "";
  cookie_path = "";
  next_upstream = "";
  next_upstream_timeout = pos 0;
  next_upstream_tries = pos 0;
  proxy_redirect_from = "";
  proxy_redirect_to = "";
  request_buffering = "";
  proxy_buffering = "";
  proxy_http_version = "";
  proxy_max_temp_file_size = "";
}

unfoldable pub equal : Config → Config → Bool
equal = all_agree (
    on (λ c. c.body_size)
    ∷ on (λ c. c.connect_timeout)
    ∷ on (λ c. c.send_timeout)
    ∷ on (λ c. c.read_timeout)
    ∷ on (λ c. c.buffers_number)
    ∷ on (λ c. c.buffer_size)
    ∷ on (λ c. c.cookie_domain)
    ∷ on (λ c. c.cookie_path)
    ∷ on (λ c. c.next_upstream)
    ∷ on (λ c. c.next_upstream_timeout)
    ∷ on (λ c. c.next_upstream_tries)
    ∷ on (λ c. c.request_buffering)
    ∷ on (λ c. c.proxy_redirect_from)
    ∷ on (λ c. c.proxy_redirect_to)
    ∷ on (λ c. c.proxy_buffering)
    ∷ on (λ c. c.proxy_http_version)
    ∷ on (λ c. c.proxy_max_temp_file_size)
    ∷ [])

pub equal-IsEquiv : IsEquiv equal
unfolding equal
equal-IsEquiv = search equiv_rules depth 30
