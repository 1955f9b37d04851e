-- ===== src/Template/CustomErrors.antt =====
-- internal/ingress/controller/template/template.go: the locations for custom errors. The argument of the
-- template is of the type that the function expects.
pub mod Codes
pub mod Exact
use ingress_nginx.Prelude.{
  ℤ, ltb_ℤ, int_eq, Bool, false, ◌||◌, none, some, List, [], ◌∷◌, elems, String, ◌==◌,
  if◌then◌else◌,
}
use ingress_nginx.Maps.{Map, get, put}
use ingress_nginx.Sorting.{slice_stable, text_less}
use ingress_nginx.Types.Location.{Location}

-- `errorLocation`
pub record ErrorLocation : Type 0 where
  pub upstream_name : String
  pub codes : List ℤ

-- _, ok := dedupedCodes[code]; the codes of a map[int]bool, whose values are all true, are a list
unfoldable pub has_code : List ℤ → ℤ → Bool
has_code [] c = false
has_code (d ∷ ds) c = d == c || has_code ds c

-- The loop over the codes of a location, with `dedupedCodes[code] = true`
unfoldable pub add_codes : List ℤ → List ℤ → List ℤ
unfolding has_code
add_codes [] deduped = deduped
add_codes (c ∷ cs) deduped = add_codes cs (if has_code deduped c then deduped else c ∷ deduped)

-- `dedupedCodes` before the loop over the codes
unfoldable pub deduped_codes : String → Map (List ℤ) → List ℤ
unfolding get
deduped_codes upstream codes_map = elim (get upstream codes_map) [
  | none ↦ []
  | some existing ↦ existing
]

-- One round of the loop over the locations
unfoldable pub collect_location : Location → Map (List ℤ) → Map (List ℤ)
unfolding put add_codes deduped_codes
collect_location loc codes_map =
    let upstream = loc.default_backend_upstream_name in
    put upstream (add_codes (elems loc.custom_http_errors) (deduped_codes upstream codes_map))
      codes_map

unfoldable pub collect_locations : List Location → Map (List ℤ) → Map (List ℤ)
unfolding collect_location
collect_locations [] codes_map = codes_map
collect_locations (l ∷ ls) codes_map = collect_locations ls (collect_location l codes_map)

-- sort.Ints
unfoldable pub sort_codes : List ℤ → List ℤ
unfolding slice_stable
sort_codes = slice_stable ltb_ℤ

-- The loop over `codesMap`
unfoldable pub error_locations : Map (List ℤ) → List ErrorLocation
unfolding sort_codes
error_locations [] = []
error_locations ((upstream, codes) ∷ m) =
    record { upstream_name = upstream; codes = sort_codes codes } ∷ error_locations m

-- The argument of sort.Slice
unfoldable pub by_name : ErrorLocation → ErrorLocation → Bool
unfolding text_less
by_name a b = text_less a.upstream_name b.upstream_name

-- `buildCustomErrorLocationsPerServer`, on the locations of the server. The names are distinct, so that
-- a stable sort gives what sort.Slice gives.
unfoldable pub build_custom_error_locations_per_server : List Location → List ErrorLocation
unfolding error_locations collect_locations slice_stable by_name
build_custom_error_locations_per_server locations =
    slice_stable by_name (error_locations (collect_locations locations []))
