-- ===== src/Template/Proxy.antt =====
-- internal/ingress/controller/template/template.go: the directives of a location that pass a request on. The
-- arguments of the template are of the types that each function expects.
use ingress_nginx.Prelude.{
  Bool, true, false, ◌&&◌, ◌||◌, not, Option, none, some, List, [], ◌∷◌, ◌++◌, String, ◌==◌,
  string_eq, if◌then◌else◌,
}
use ingress_nginx.Strings.{◌^^◌}
use ingress_nginx.Types.Backend.{Backend}
use ingress_nginx.Types.Location.{Location}
use ingress_nginx.Controller.Upstreams.{def_upstream_name}

-- The directive and the protocol for a backend protocol.
unfoldable pub pass_for : String → String × String
pass_for protocol =
    if protocol == "HTTPS"
    then ("proxy_pass", "https://")
    else if protocol == "GRPC"
    then ("grpc_pass", "grpc://")
    else if protocol == "GRPCS"
    then ("grpc_pass", "grpcs://")
    else if protocol == "AJP"
    then ("ajp_pass", "")
    else if protocol == "FCGI"
    then ("fastcgi_pass", "")
    else ("proxy_pass", "http://")

-- Whether the first backend with the name has SSLPassthrough.
unfoldable pub passes_ssl : String → List Backend → Bool
passes_ssl name [] = false
passes_ssl name (b ∷ bs) =
    let later = passes_ssl name bs in if b.name == name then b.ssl_passthrough else later

-- `proxyPass` and `proto` after the tests.
unfoldable pub pass_and_proto : List Backend → Location → String × String
unfolding pass_for passes_ssl
pass_and_proto backends location =
    let given = pass_for location.backend_protocol in
    if location.backend == def_upstream_name
    then ("proxy_pass", "http://")
    else if passes_ssl location.backend backends
    then (given.0, if location.backend_protocol == "GRPCS" then "grpcs://" else "https://")
    else given

-- `buildProxyPass`
unfoldable pub build_proxy_pass : List Backend → Location → String
unfolding pass_and_proto
build_proxy_pass backends location =
    let p = pass_and_proto backends location in
    let def_proxy_pass = p.0 ^^ (" " ^^ (p.1 ^^ "upstream_balancer;")) in
    let prefix_header =
      if location.x_forwarded_prefix == ""
      then ""
      else "proxy_set_header X-Forwarded-Prefix \"" ^^ (location.x_forwarded_prefix ^^ "\";\n") in
    if location.path == location.rewrite.target || location.rewrite.target == ""
    then def_proxy_pass
    else "\nrewrite \"(?i)"
      ^^ (location.path
          ^^ ("\" "
              ^^ (location.rewrite.target ^^ (" break;\n" ^^ (prefix_header ^^ def_proxy_pass)))))

-- `shouldApplyGlobalAuth`
unfoldable pub should_apply_global_auth : Location → String → Bool
should_apply_global_auth location global_url =
    location.external_auth.url == "" && not (global_url == "") && location.enable_global_auth

-- `isLocationAllowed`
unfoldable pub is_location_allowed : Location → Bool
is_location_allowed loc = elim loc.denied [ none ↦ true | some e ↦ false ]

-- `buildUpstreamName`
abbrev pub build_upstream_name : Location → String
build_upstream_name loc = loc.backend

-- `opentracingPropagateContext`; `none` is a nil location.
unfoldable pub opentracing_propagate_context : Option Location → String
opentracing_propagate_context none = ""
opentracing_propagate_context (some location) =
    if location.backend_protocol == "GRPC" || location.backend_protocol == "GRPCS"
    then "opentracing_grpc_propagate_context;"
    else "opentracing_propagate_context;"

-- The loop of `buildNextUpstream` over the parts of the text: the codes, and whether one part is
-- non_idempotent.
unfoldable pub next_upstream_codes : List String → List String × Bool
next_upstream_codes [] = ([], false)
next_upstream_codes (v ∷ vs) =
    let rest = next_upstream_codes vs in
    if v == "non_idempotent" then (rest.0, true) else if v == "" then rest else (v ∷ rest.0, rest.1)

-- The parts of the result of `buildNextUpstream`, which it joins by spaces.
unfoldable pub next_upstream_parts : List String → Bool → List String
unfolding next_upstream_codes
next_upstream_parts parts retry_non_idempotent =
    let codes = next_upstream_codes parts in
    codes.0 ++ (if retry_non_idempotent || codes.1 then "non_idempotent" ∷ [] else [])
