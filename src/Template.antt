-- ===== src/Template.antt =====
-- internal/ingress/controller/template/template.go: the text of a location in nginx.conf.
pub mod CustomErrors
pub mod Names
pub mod Modules
pub mod RateLimits
pub mod Proxy
pub mod Listeners
use ingress_nginx.Prelude.{Bool, false, ◌||◌, List, [], ◌∷◌, String, if◌then◌else◌}
use ingress_nginx.Strings.{◌^^◌}
use ingress_nginx.Types.Location.{Location}
use ingress_nginx.Controller.Locations.{is_exact, needs_rewrite}

-- `enforceRegexModifier`; the template's own `needsRewrite` has the controller's lines.
unfoldable pub enforce_regex_modifier : List Location → Bool
unfolding needs_rewrite
enforce_regex_modifier [] = false
enforce_regex_modifier (l ∷ ls) =
    needs_rewrite l || l.rewrite.use_regex || enforce_regex_modifier ls

-- `buildLocation`
unfoldable pub build_location : Location → Bool → String
build_location location enforce_regex =
    if enforce_regex
    then "~* \"^" ^^ (location.path ^^ "\"")
    else if is_exact location.path_type
    then "= " ^^ location.path
    else location.path
