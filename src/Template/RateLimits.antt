-- ===== src/Template/RateLimits.antt =====
-- internal/ingress/controller/template/template.go: the rate limits. The argument of the template is of
-- the type that each function expects.
pub mod Declared
use ingress_nginx.Prelude.{
  ℤ, pos, ltb_ℤ, Bool, ◌&&◌, not, List, [], ◌∷◌, ◌++◌, String, ◌==◌, string_eq, if◌then◌else◌,
}
use ingress_nginx.Annotations.RateLimit
use ingress_nginx.Api.{itoa}
use ingress_nginx.StringSets.{StringSets}
use ingress_nginx.Strings.{◌^^◌}
use ingress_nginx.Types.Location.{Location}
use ingress_nginx.Controller.Servers.{Site}

-- `limit_conn_zone` for the connections, and `limit_req_zone` for a rate per minute ("m") or second ("s")
abbrev pub conn_zone : RateLimit.Config → String
unfolding itoa
conn_zone r =
    "limit_conn_zone $limit_"
    ^^ (r.id
        ^^ (" zone=" ^^ (r.connections.name ^^ (":" ^^ (itoa r.connections.shared_size ^^ "m;")))))

abbrev pub req_zone : String → RateLimit.Config → RateLimit.Zone → String
unfolding itoa
req_zone unit r z =
    "limit_req_zone $limit_"
    ^^ (r.id
        ^^ (" zone="
            ^^ (z.name
                ^^ (":"
                    ^^ (itoa z.shared_size
                        ^^ ("m rate=" ^^ (itoa z.limit ^^ ("r/" ^^ (unit ^^ ";")))))))))

abbrev pub positive : ℤ → Bool
positive n = ltb_ℤ (pos 0) n

module _ (S : StringSets) where
  open S use {Set, empty, insert, has, list}

  abbrev pub insert_if : Bool → String → Set → Set
  insert_if b z zones = if b && not (has zones z) then insert z zones else zones

  -- The zones of a location.
  unfoldable pub add_zones : RateLimit.Config → Set → Set
  add_zones r zones = insert_if (positive r.rps.limit) (req_zone "s" r r.rps) (
      insert_if (positive r.rpm.limit) (req_zone "m" r r.rpm)
        (insert_if (positive r.connections.limit) (conn_zone r) zones))

  unfoldable pub add_locations_zones : List Location → Set → Set
  unfolding add_zones
  add_locations_zones [] zones = zones
  add_locations_zones (l ∷ ls) zones = add_locations_zones ls (add_zones l.rate_limit zones)

  unfoldable pub add_servers_zones : List Site → Set → Set
  unfolding add_locations_zones
  add_servers_zones [] zones = zones
  add_servers_zones (s ∷ ss) zones = add_servers_zones ss (add_locations_zones s.locations zones)

  -- `buildRateLimitZones`
  unfoldable pub build_rate_limit_zones : List Site → List String
  unfolding add_servers_zones
  build_rate_limit_zones servers = list (add_servers_zones servers empty)

  -- `filterRateLimits`, with the set `found`
  unfoldable pub filter_locations : List Location → Set → List RateLimit.Config × Set
  filter_locations [] found = ([], found)
  filter_locations (l ∷ ls) found =
      if not (l.rate_limit.id == "") && not (has found l.rate_limit.id)
      then (let rest = filter_locations ls (insert l.rate_limit.id found) in
          (l.rate_limit ∷ rest.0, rest.1))
      else filter_locations ls found

  unfoldable pub filter_servers : List Site → Set → List RateLimit.Config
  unfolding filter_locations
  filter_servers [] found = []
  filter_servers (s ∷ ss) found =
      let first = filter_locations s.locations found in first.0 ++ filter_servers ss first.1

  unfoldable pub filter_rate_limits : List Site → List RateLimit.Config
  unfolding filter_servers
  filter_rate_limits servers = filter_servers servers empty

abbrev limit_if : Bool → String → List String
limit_if b s = if b then s ∷ [] else []

abbrev req_limit : RateLimit.Zone → String
unfolding itoa
req_limit z = "limit_req zone=" ^^ (z.name ^^ (" burst=" ^^ (itoa z.burst ^^ " nodelay;")))

-- `buildRateLimit`
unfoldable pub build_rate_limit : Location → List String
unfolding itoa
build_rate_limit loc =
    let r = loc.rate_limit in
    limit_if (positive r.connections.limit)
      ("limit_conn " ^^ (r.connections.name ^^ (" " ^^ (itoa r.connections.limit ^^ ";"))))
    ++ (limit_if (positive r.rps.limit) (req_limit r.rps)
        ++ (limit_if (positive r.rpm.limit) (req_limit r.rpm)
            ++ (limit_if (positive r.limit_rate_after)
                  ("limit_rate_after " ^^ (itoa r.limit_rate_after ^^ "k;"))
                ++ limit_if (positive r.limit_rate)
                    ("limit_rate " ^^ (itoa r.limit_rate ^^ "k;")))))
