-- ===== src/Template/Modules.antt =====
-- internal/ingress/controller/template/template.go: the directives of a location that belong to a module of
-- NGINX, and the tests whether the module is loaded. The arguments of the template are of the types that each
-- function expects.
pub mod Loaded
use ingress_nginx.Prelude.{
  Bool, false, ◌&&◌, ◌||◌, not, some, List, [], ◌∷◌, String, ◌==◌, string_eq, if◌then◌else◌,
}
use ingress_nginx.Annotations.InfluxDb
use ingress_nginx.Strings.{◌^^◌}
use ingress_nginx.Types.Location.{Location}
use ingress_nginx.Controller.Servers.{Site}
use ingress_nginx.Template.Proxy.{opentracing_propagate_context}

-- What the functions read of config.Configuration.
pub record Config : Type 0 where
  pub enable_modsecurity : Bool
  pub enable_owasp_core_rules : Bool
  pub enable_opentracing : Bool

-- The loops over the locations of all servers.
unfoldable pub any_location : (Location → Bool) → List Location → Bool
any_location test [] = false
any_location test (l ∷ ls) = test l || any_location test ls

unfoldable pub any_server : (Location → Bool) → List Site → Bool
unfolding any_location
any_server test [] = false
any_server test (s ∷ ss) = any_location test s.locations || any_server test ss

-- `shouldLoadModSecurityModule`
unfoldable pub should_load_mod_security_module : Config → List Site → Bool
unfolding any_server
should_load_mod_security_module cfg servers =
    cfg.enable_modsecurity || any_server (λ l. l.mod_security.enable) servers

-- `shouldLoadOpentracingModule`
unfoldable pub should_load_opentracing_module : Config → List Site → Bool
unfolding any_server
should_load_opentracing_module cfg servers =
    cfg.enable_opentracing || any_server (λ l. l.opentracing.enabled) servers

-- `shouldLoadAuthDigestModule`
unfoldable pub should_load_auth_digest_module : List Site → Bool
unfolding any_server
should_load_auth_digest_module =
    any_server (λ l. l.basic_digest_auth.secured && l.basic_digest_auth.type == "digest")

-- `shouldLoadInfluxDBModule`
unfoldable pub should_load_influxdb_module : List Site → Bool
unfolding any_server
should_load_influxdb_module = any_server (λ l. l.influxdb.influxdb_enabled)

abbrev pub text_if : Bool → String → String
text_if b s = if b then s else ""

-- `buildModSecurityForLocation`
unfoldable pub build_mod_security_for_location : Config → Location → String
build_mod_security_for_location cfg location =
    let m = location.mod_security in
    if not cfg.enable_modsecurity && not m.enable
    then ""
    else if m.enable_set && not m.enable
    then "modsecurity off;"
    else text_if (not cfg.enable_modsecurity) "modsecurity on;\n"
      ^^ (text_if (not (m.snippet == "")) ("modsecurity_rules '\n" ^^ (m.snippet ^^ "\n';\n"))
          ^^ (text_if (not (m.transaction_id == ""))
                ("modsecurity_transaction_id \"" ^^ (m.transaction_id ^^ "\";\n"))
              ^^ (text_if (not cfg.enable_modsecurity)
                    "modsecurity_rules_file /etc/nginx/modsecurity/modsecurity.conf;\n"
                  ^^ text_if (not cfg.enable_owasp_core_rules && m.owasp_rules)
                      "modsecurity_rules_file /etc/nginx/owasp-modsecurity-crs/nginx-modsecurity.conf;\n")))

-- The directive "opentracing on" with the context, in `buildOpentracingForLocation`.
unfoldable pub opentracing_on : Location → String
unfolding opentracing_propagate_context
opentracing_on location =
    let opc = opentracing_propagate_context (some location) in
    if not (opc == "") then "opentracing on;\n" ^^ opc else opc

-- `buildOpentracingForLocation`
unfoldable pub build_opentracing_for_location : Bool → Location → String
unfolding opentracing_on
build_opentracing_for_location is_ot_enabled location =
    let o = location.opentracing in
    if is_ot_enabled
    then (if o.set && not o.enabled then "opentracing off;" else opentracing_on location)
    else if o.set && o.enabled
    then opentracing_on location
    else ""

-- `buildInfluxDB`
unfoldable pub build_influxdb : InfluxDb.Config → String
build_influxdb cfg =
    if not cfg.influxdb_enabled
    then ""
    else "influxdb server_name="
      ^^ (cfg.influxdb_server_name
          ^^ (" host="
              ^^ (cfg.influxdb_host
                  ^^ (" port="
                      ^^ (cfg.influxdb_port
                          ^^ (" measurement="
                              ^^ (cfg.influxdb_measurement ^^ " enabled=true;")))))))
