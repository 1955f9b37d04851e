-- ===== src/Annotations/SslCipher.antt =====
-- internal/ingress/annotations/sslcipher/main.go: `Config`.
use ingress_nginx.Prelude.{String}

pub record Config : Type 0 where
  pub ssl_ciphers : String
  pub ssl_prefer_server_ciphers : String

-- The zero value.
abbrev pub zero_config : Config
zero_config = record { ssl_ciphers = ""; ssl_prefer_server_ciphers = "" }
