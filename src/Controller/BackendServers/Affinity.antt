-- ===== src/Controller/BackendServers/Affinity.antt =====
-- internal/ingress/controller/controller.go, getBackendServers: the session affinity of an upstream.
use ingress_nginx.Prelude.{
  Option, none, some, List, [], ◌∷◌, ◌++◌, Slice, elems, String, ◌==◌, string_eq, if◌then◌else◌,
}
use ingress_nginx.Annotations.SessionAffinity
use ingress_nginx.Maps.{Map, get, put}
use ingress_nginx.Panics.{◌>>=◌}
use ingress_nginx.Types.Backend.{Backend, CookieSessionAffinity}

-- The paths of a host, with one more.
unfoldable pub add_path : String → String → Map (Slice String) → Map (Slice String)
unfolding get put
add_path path host locs =
    let old : List String = elim (get host locs) [ none ↦ [] | some ps ↦ elems ps ] in
    put host (some (old ++ (path ∷ []))) locs

unfoldable pub add_path_to : String → List String → Map (Slice String) → Map (Slice String)
unfolding add_path
add_path_to path [] locs = locs
add_path_to path (host ∷ hosts) locs = add_path_to path hosts (add_path path host locs)

-- The fields of the cookie; `none` is the panic of a write to a nil map.
unfoldable pub with_cookie :
    SessionAffinity.Cookie
    → String
    → List String
    → CookieSessionAffinity
    → Option CookieSessionAffinity
unfolding add_path_to
with_cookie cookie path hosts c = elim c.locations [
  | none ↦ none
  | some locs ↦ some (record {
    name = cookie.name;
    expires = cookie.expires;
    max_age = cookie.max_age;
    path = cookie.path;
    same_site = cookie.same_site;
    conditional_same_site_none = cookie.conditional_same_site_none;
    change_on_failure = cookie.change_on_failure;
    locations = some (add_path_to path hosts locs);
  })
]

-- The upstream under the annotations of an ingress, for a path of a host with its aliases.
unfoldable pub with_affinity :
    SessionAffinity.Config → String → Slice String → String → Backend → Option Backend
unfolding with_cookie
with_affinity anns host aliases path ups =
    let old = ups.session_affinity in
    let typed = record old {
      affinity_type = if old.affinity_type == "" then anns.type else old.affinity_type;
      affinity_mode = if old.affinity_mode == "" then anns.mode else old.affinity_mode;
    } in
    if anns.type == "cookie"
    then (with_cookie anns.cookie path (host ∷ elems aliases) old.cookie_session_affinity >>= λ c.
        some (record ups { session_affinity = record typed { cookie_session_affinity = c } }))
    else some (record ups { session_affinity = typed })
