-- ===== src/Controller/Locations.antt =====
-- internal/ingress/controller/location.go: the locations of a server as NGINX gets them. The code
-- changes the locations in place and returns them; here the changed values are returned. A copy
-- (github.com/mitchellh/copystructure) has the fields of the original.
pub mod Exact
pub mod Serving
use ingress_nginx.Prelude.{
  Bool, true, false, not, ◌&&◌, ◌||◌, Option, none, some, List, [], ◌∷◌, ◌++◌, String, ◌==◌,
  string_eq, if◌then◌else◌,
}
use ingress_nginx.Api.{PathType, exact, prefix}
use ingress_nginx.Annotations.Rewrite
use ingress_nginx.Maps.{contains}
use ingress_nginx.Strings.{ends_in_slash, ◌^^◌}
use ingress_nginx.Types.Location.{Location}

abbrev pub root_location : String
root_location = "/"

abbrev pub is_exact : Option PathType → Bool
is_exact (some exact) = true
is_exact _ = false

abbrev pub is_prefix : Option PathType → Bool
is_prefix (some prefix) = true
is_prefix _ = false

unfoldable pub normalize_prefix_path : String → String
unfolding ends_in_slash
normalize_prefix_path path =
    if path == root_location
    then root_location
    else if ends_in_slash path
    then path
    else path ^^ "/"

unfoldable pub needs_rewrite : Location → Bool
needs_rewrite l = not (l.rewrite.target == "") && not (l.rewrite.target == l.path)

-- The keys of `exactLocations`.
unfoldable pub exact_paths : List Location → List String
exact_paths [] = []
exact_paths (l ∷ ls) = if is_exact l.path_type then l.path ∷ exact_paths ls else exact_paths ls

-- One round of the second loop: what it appends to `newLocations`.
unfoldable pub update_location : List String → Location → List Location
unfolding normalize_prefix_path needs_rewrite contains
update_location exact_locations l =
    if l.path == root_location
    then l ∷ []
    else (let l' : Location = record l { ingress_path = l.path } in
        if not (is_prefix l'.path_type)
        then l' ∷ []
        else if needs_rewrite l' || l'.rewrite.use_regex
        then l' ∷ []
        else if contains exact_locations l'.path
        then record l' { path = normalize_prefix_path l'.path } ∷ []
        else record l' { path = normalize_prefix_path l'.path }
          ∷ record l' { path_type = some exact }
          ∷ [])

unfoldable pub update_locations : List String → List Location → List Location
unfolding update_location
update_locations exact_locations [] = []
update_locations exact_locations (l ∷ ls) =
    update_location exact_locations l ++ update_locations exact_locations ls

-- Whether the pointers that the first loop reads through are not nil.
abbrev pub all_typed : List Location → Bool
all_typed [] = true
all_typed (l ∷ ls) = elim l.path_type [ none ↦ false | some t ↦ all_typed ls ]

-- `updateServerLocations`; `none` where a path type is nil, so that it panics.
unfoldable pub update_server_locations : List Location → Option (List Location)
unfolding update_locations exact_paths
update_server_locations locations =
    if all_typed locations then some (update_locations (exact_paths locations) locations) else none
