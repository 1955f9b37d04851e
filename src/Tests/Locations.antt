-- ===== src/Tests/Locations.antt =====
-- Runs of the update of a server's locations, with NGINX's matching of plain texts.
use Prim.Native.Char.{code}
use text.Mathlib.TextLemmas.{nil-append, cons-append}
use ingress_nginx.Prelude.{
  Bool, List, [], ◌∷◌, none, some, true, false, ◌&&◌, ◌≡◌, refl, String, ◌==◌, string_eq, nat_eq,
  arith, if◌then◌else◌,
}
use ingress_nginx.Api.{PathType, exact, prefix}
use ingress_nginx.Maps.{contains}
use ingress_nginx.Strings.{ends_in_slash}
use ingress_nginx.Strings.Prefixes.{starts_with}
use ingress_nginx.Types.Location.{Location, zero_location}
use ingress_nginx.Template.{build_location, enforce_regex_modifier}
use ingress_nginx.Controller.Endpoints.Laws.{NoRepeats}
use ingress_nginx.Controller.Locations.{exact_paths, update_server_locations}
use ingress_nginx.Controller.Locations.Exact.{prefix_paths, exact_locations_distinct}
use ingress_nginx.Controller.Locations.Serving.{
  LocationMatching, AreRooted, served_by, promised, promised_by, served_as_promised,
}

abbrev at : PathType → String → Location
at t p = record zero_location { path = p; path_type = some t }

abbrev updated : PathType → String → String → Location
updated t p ingress_path = record zero_location {
  path = p;
  path_type = some t;
  ingress_path = ingress_path;
}

abbrev given : List Location
given = at prefix "/" ∷ at prefix "/foo" ∷ at exact "/bar" ∷ at prefix "/bar" ∷ []

abbrev result : List Location
result =
    at prefix "/"
    ∷ updated prefix "/foo/" "/foo"
    ∷ updated exact "/foo" "/foo"
    ∷ updated exact "/bar" "/bar"
    ∷ updated prefix "/bar/" "/bar"
    ∷ []

given-result : update_server_locations given ≡ some result
unfolding update_server_locations ends_in_slash
given-result = refl

-- Two prefix locations that differ in a slash become locations with one path.
same_path :
    update_server_locations (at prefix "/foo" ∷ at prefix "/foo/" ∷ [])
    ≡ some (
        updated prefix "/foo/" "/foo"
        ∷ updated exact "/foo" "/foo"
        ∷ updated prefix "/foo/" "/foo/"
        ∷ updated exact "/foo/" "/foo/"
        ∷ [])
unfolding update_server_locations ends_in_slash
same_path = refl

untyped : update_server_locations (zero_location ∷ []) ≡ none
unfolding update_server_locations
untyped = refl

given-exact : NoRepeats (exact_paths given)
unfolding exact_paths contains
given-exact = (refl, tt)

given-prefix : NoRepeats (prefix_paths given)
unfolding prefix_paths contains
given-prefix = (refl, (refl, (refl, tt)))

given-AreRooted : AreRooted given
unfolding starts_with
given-AreRooted = (refl, (refl, (refl, (refl, tt))))

result-plain : enforce_regex_modifier result ≡ false
unfolding enforce_regex_modifier
result-plain = refl

exact_locations_distinct_example : NoRepeats (exact_paths result)
exact_locations_distinct_example =
    exact_locations_distinct given result given-exact given-prefix given-result

abbrev serves : String → String → Bool
serves (String.◌∷◌ c (String.◌∷◌ d p)) r =
    if code c == b'=' && code d == b' '
    then p == r
    else starts_with (String.◌∷◌ c (String.◌∷◌ d p)) r
serves p r = starts_with p r

serves-prefix_form : (p r : String) → starts_with "/" p ≡ true → serves p r ≡ starts_with p r
unfolding starts_with
serves-prefix_form String.[] r h = refl
serves-prefix_form (String.◌∷◌ c String.[]) r h = refl
serves-prefix_form (String.◌∷◌ c (String.◌∷◌ d p)) r h = ground arith

abbrev matching : LocationMatching
matching = record {
  serves = serves;
  exact_form = λ p r. rw cons-append (rw cons-append (rw nil-append refl));
  prefix_form = serves-prefix_form;
}

served_as_promised_example :
    served_by matching (enforce_regex_modifier result) result "/foo/x" ≡ promised_by given "/foo/x"
served_as_promised_example =
    served_as_promised matching given result given-AreRooted given-result result-plain "/foo/x"

-- The path continues an element, so that only the root serves it.
continued :
    (served_by matching false
        (updated prefix "/foo/" "/foo" ∷ updated exact "/foo" "/foo" ∷ [])
        "/foobar"
      ≡ false)
    × (promised_by given "/foobar" ≡ true)
unfolding served_by promised_by promised starts_with build_location ends_in_slash
continued = (refl, refl)
