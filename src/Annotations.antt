-- ===== src/Annotations.antt =====
-- internal/ingress/annotations: what the annotations of an ingress configure, a module per package.
pub mod Auth
pub mod AuthReq
pub mod AuthTls
pub mod Canary
pub mod Connection
pub mod Cors
pub mod FastCgi
pub mod GlobalRateLimit
pub mod InfluxDb
pub mod IpWhitelist
pub mod Log
pub mod Mirror
pub mod ModSecurity
pub mod OpenTracing
pub mod Proxy
pub mod ProxySsl
pub mod RateLimit
pub mod Redirect
pub mod Resolver
pub mod Rewrite
pub mod SessionAffinity
pub mod SslCipher
pub mod UpstreamHashBy
