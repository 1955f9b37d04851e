-- ===== src/Template/Listeners.antt =====
-- internal/ingress/controller/template/template.go: the listen directives of a server.
use ingress_nginx.Prelude.{
  ℤ, Bool, not, ◌||◌, List, [], ◌∷◌, ◌++◌, String, ◌==◌, string_eq, if◌then◌else◌,
}
use ingress_nginx.Api.{itoa}
use ingress_nginx.Strings.{◌^^◌}
use ingress_nginx.Strings.Prefixes.{starts_with}

-- What the directives read of config.TemplateConfig and its configuration.
pub record ListenConfig : Type 0 where
  pub bind_address_ipv4 : List String
  pub bind_address_ipv6 : List String
  pub is_ipv6_enabled : Bool
  pub is_ssl_passthrough_enabled : Bool
  pub use_proxy_protocol : Bool
  pub reuse_port : Bool
  pub use_http2 : Bool
  pub backlog_size : ℤ
  pub http : ℤ
  pub https : ℤ
  pub ssl_proxy : ℤ

-- strings.Join(ss, sep)
unfoldable pub join : String → List String → String
join sep [] = ""
join sep (s ∷ []) = s
join sep (s ∷ t ∷ ss) = s ^^ (sep ^^ join sep (t ∷ ss))

abbrev option_if : Bool → String → List String
option_if b s = if b then s ∷ [] else []

-- The parts of the result of `commonListenOptions`.
unfoldable pub common_parts : ListenConfig → String → List String
unfolding itoa
common_parts tc hostname =
    option_if tc.use_proxy_protocol "proxy_protocol"
    ++ (if not (hostname == "_")
        then []
        else "default_server"
          ∷ (option_if tc.reuse_port "reuseport" ++ (("backlog=" ^^ itoa tc.backlog_size) ∷ [])))

unfoldable pub common_listen_options : ListenConfig → String → String
unfolding common_parts join
common_listen_options tc hostname = join " " (common_parts tc hostname)

abbrev pub at_port : String → ℤ → String
unfolding itoa
at_port address port = if address == "" then itoa port else address ^^ (":" ^^ itoa port)

-- `httpListener`
unfoldable pub http_listener : List String → String → ListenConfig → List String
unfolding join itoa
http_listener [] co tc = []
http_listener (address ∷ addresses) co tc =
    join " " ("listen" ∷ at_port address tc.http ∷ co ∷ ";" ∷ []) ∷ http_listener addresses co tc

-- strings.Contains(s, text)
unfoldable pub has_text : String → String → Bool
unfolding starts_with
has_text text String.[] = starts_with text String.[]
has_text text (String.◌∷◌ c s) = starts_with text (String.◌∷◌ c s) || has_text text s

-- One round of `httpsListener`
unfoldable pub https_line : String → String → ListenConfig → String
unfolding join itoa has_text
https_line address co tc = join " " (
    "listen"
    ∷ ((if tc.is_ssl_passthrough_enabled
          then at_port address tc.ssl_proxy
            ∷ option_if (not (has_text "proxy_protocol" co)) "proxy_protocol"
          else at_port address tc.https ∷ [])
        ++ (co ∷ "ssl" ∷ (option_if tc.use_http2 "http2" ++ (";" ∷ [])))))

unfoldable pub https_listener : List String → String → ListenConfig → List String
unfolding https_line
https_listener [] co tc = []
https_listener (address ∷ addresses) co tc =
    https_line address co tc ∷ https_listener addresses co tc

abbrev pub addresses_or : String → List String → List String
addresses_or default [] = default ∷ []
addresses_or default (a ∷ as') = a ∷ as'

-- `buildHTTPListener`
unfoldable pub build_http_listener : ListenConfig → String → String
unfolding http_listener common_listen_options join
build_http_listener tc hostname =
    let co = common_listen_options tc hostname in
    join "\n" (
      http_listener (addresses_or "" tc.bind_address_ipv4) co tc
      ++ (if tc.is_ipv6_enabled
          then http_listener (addresses_or "[::]" tc.bind_address_ipv6) co tc
          else []))

-- `buildHTTPSListener`
unfoldable pub build_https_listener : ListenConfig → String → String
unfolding https_listener common_listen_options join
build_https_listener tc hostname =
    let co = common_listen_options tc hostname in
    join "\n" (
      https_listener (addresses_or "" tc.bind_address_ipv4) co tc
      ++ (if tc.is_ipv6_enabled
          then https_listener (addresses_or "[::]" tc.bind_address_ipv6) co tc
          else []))
