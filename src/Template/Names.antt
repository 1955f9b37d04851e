-- ===== src/Template/Names.antt =====
-- internal/ingress/controller/template/template.go: names of servers, headers and mirrors. The arguments of the
-- template are of the types that each function expects.
use Prim.Native.Char.{code}
use ingress_nginx.Prelude.{
  ℕ, Bool, false, ◌&&◌, ◌||◌, not, List, [], ◌∷◌, String, ◌==◌, nat_eq, string_eq, if◌then◌else◌,
}
use ingress_nginx.K8s.{before_first}
use ingress_nginx.StringSets.{StringSets}
use ingress_nginx.Strings.{◌^^◌}
use ingress_nginx.Strings.Prefixes.{starts_with}
use ingress_nginx.Template.Listeners.{join}
use ingress_nginx.Types.Location.{Location}

-- strings.Split(s, sep) for a separator of one character, given by its code
unfoldable pub split_on : ℕ → String → List String
split_on sep String.[] = String.[] ∷ []
split_on sep (String.◌∷◌ c s) =
    let rest = split_on sep s in if code c == sep then String.[] ∷ rest else before_first c rest

-- strings.Replace(s, "*.", "", 1)
unfoldable pub without_star_dot : String → String
without_star_dot String.[] = ""
without_star_dot (String.◌∷◌ c String.[]) = String.◌∷◌ c String.[]
without_star_dot (String.◌∷◌ c (String.◌∷◌ d s)) =
    let rest = without_star_dot (String.◌∷◌ d s) in
    if code c == b'*' && code d == b'.' then s else String.◌∷◌ c rest

-- `buildServerName`
unfoldable pub build_server_name : String → String
unfolding starts_with split_on without_star_dot join
build_server_name hostname =
    if not (starts_with "*" hostname)
    then hostname
    else "~^(?<subdomain>[\\w-]+)\\."
      ^^ (join "\\." (split_on b'.' (without_star_dot hostname)) ^^ "$")

-- strings.Trim(s, " "), on each side
unfoldable pub trim_left : String → String
trim_left String.[] = ""
trim_left (String.◌∷◌ c s) =
    let rest = trim_left s in if code c == b' ' then rest else String.◌∷◌ c s

unfoldable pub trim_right : String → String
trim_right String.[] = ""
trim_right (String.◌∷◌ c s) =
    let rest = trim_right s in if code c == b' ' && rest == "" then "" else String.◌∷◌ c rest

-- The loop of `isLocationInLocationList` over the parts of the list
unfoldable pub in_location_list : String → List String → Bool
unfolding trim_left trim_right starts_with
in_location_list path [] = false
in_location_list path (item ∷ items) =
    let trimmed = trim_right (trim_left item) in
    not (trimmed == "") && starts_with trimmed path || in_location_list path items

-- `isLocationInLocationList`
unfoldable pub is_location_in_location_list : Location → String → Bool
unfolding in_location_list split_on
is_location_in_location_list loc raw_location_list =
    in_location_list loc.path (split_on b',' raw_location_list)

-- `proxySetHeader`
unfoldable pub proxy_set_header : Location → String
proxy_set_header location =
    if location.backend_protocol == "GRPC" || location.backend_protocol == "GRPCS"
    then "grpc_set_header"
    else "proxy_set_header"

module _ (S : StringSets) where
  open S use {Set, empty, insert, has}

  -- The loop of `buildMirrorLocations`, with the set `mapped`
  unfoldable pub mirror_locations : List Location → Set → String
  mirror_locations [] mapped = ""
  mirror_locations (loc ∷ locs) mapped =
      let skipped = mirror_locations locs mapped in
      let rest = mirror_locations locs (insert loc.mirror.source mapped) in
      if loc.mirror.source == "" || loc.mirror.target == "" || has mapped loc.mirror.source
      then skipped
      else "location = "
        ^^ (loc.mirror.source
            ^^ (" {\ninternal;\nproxy_pass " ^^ (loc.mirror.target ^^ (";\n}\n\n" ^^ rest))))

  -- `buildMirrorLocations`
  unfoldable pub build_mirror_locations : List Location → String
  unfolding mirror_locations
  build_mirror_locations locs = mirror_locations locs empty
