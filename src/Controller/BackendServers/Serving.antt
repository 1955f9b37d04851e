-- ===== src/Controller/BackendServers/Serving.antt =====
-- The loop over the ingresses returns, and gives every path a location.
use ingress_nginx.Prelude.{
  Bool, true, false, some, List, [], ◌∷◌, Slice, elems, String, ◌==◌, string_eq, ◌≡◌, refl, subst,
  arith, All, eq_refl, if-cases,
}
use ingress_nginx.Api.{HttpPath, Rule}
use ingress_nginx.Maps.{Map, get, put, member, get-put}
use ingress_nginx.Maps.All.{put-AllFound, found-of-member, member-of-found}
use ingress_nginx.Panics.{Ends, Ends-bind, Ends-if, Ends-of, Ends-weaken}
use ingress_nginx.Types.Backend.{Backend}
use ingress_nginx.Types.Ingress.{Ingress}
use ingress_nginx.Controller.BackendServers.{
  Stage, authenticated, placed_site, place_path, place_paths, place_http, server_key,
}
use ingress_nginx.Controller.BackendServers.Affinity.{with_affinity}
use ingress_nginx.Controller.BackendServers.Progress.{
  Serves, HasFlag, Progress, Progress-refl, Progress-trans, IsWritable, IsReady, put-servers,
  put-upstreams, Adapted, with_affinity-Adapted,
}
use ingress_nginx.Controller.Placing.Laws.{place_serves, place_lasts}
use ingress_nginx.Controller.Servers.{Site}
use ingress_nginx.Controller.Upstreams.{name_for, def_upstream_name}
use ingress_nginx.Controller.Upstreams.Merging.{def_server_name}

-- A step that keeps what is there and stays ready.
abbrev pub Steps : Stage → Stage → Type 0
Steps st st' = Progress st st' × IsReady st'

pub Steps-refl : (st : Stage) → IsReady st → Steps st st
Steps-refl st r = (Progress-refl st, r)

pub Steps-trans : (a b c : Stage) → Steps a b → Steps b c → Steps a c
Steps-trans a b c g h = (Progress-trans a b c g.0 h.0, h.1)

-- The upstream of a path is there, and it is not the default one.
abbrev pub IsNameable : Stage → Ingress → HttpPath → Type 0
IsNameable st ing p =
    (member (name_for ing p.backend) st.upstreams ≡ true)
    × ((name_for ing p.backend == def_upstream_name) ≡ false)

abbrev pub AreNameable : Stage → Ingress → List Rule → Type 0
AreNameable st ing rs = All (λ r. All (IsNameable st ing) (elems r.http)) rs

-- The server `key` of the later stage has a location for the path, unless its upstream takes no server.
abbrev pub IsPlaced : Stage → Stage → Ingress → String → HttpPath → Type 0
IsPlaced st st' ing key p =
    HasFlag st.upstreams (name_for ing p.backend) false → Serves st'.servers key p

flag-member : (m : Map Backend) (k : String) (b : Bool) → HasFlag m k b → member k m ≡ true
flag-member m k b h = member-of-found k h.0 m h.1

pub member-flag : (m : Map Backend) (k : String) → member k m ≡ true → (b : Bool) × HasFlag m k b
member-flag m k h =
    let found = found-of-member k m h in (found.0.no_server, (found.0, found.1, refl))

member-lasts :
    (a b : Stage)
    → Progress a b
    → (k : String) → member k a.upstreams ≡ true
    → member k b.upstreams ≡ true
member-lasts a b g k h =
    let flag = member-flag a.upstreams k h in
    flag-member b.upstreams k flag.0 (g.flags k flag.0 flag.1)

pub IsNameable-lasts :
    (a b : Stage)
    → Progress a b
    → (ing : Ingress) (ps : List HttpPath) → All (IsNameable a ing) ps
    → All (IsNameable b ing) ps
IsNameable-lasts a b g ing [] h = tt
IsNameable-lasts a b g ing (p ∷ ps) h =
    ((member-lasts a b g (name_for ing p.backend) h.0.0, h.0.1), IsNameable-lasts a b g ing ps h.1)

pub IsPlaced-earlier :
    (a b c : Stage)
    → Progress a b
    → (ing : Ingress) (key : String) (ps : List HttpPath) → All (IsPlaced b c ing key) ps
    → All (IsPlaced a c ing key) ps
IsPlaced-earlier a b c g ing key [] h = tt
IsPlaced-earlier a b c g ing key (p ∷ ps) h = (
  (λ flag. h.0 (g.flags (name_for ing p.backend) false flag)),
  IsPlaced-earlier a b c g ing key ps h.1,
)

pub IsPlaced-later :
    (a b c : Stage)
    → Progress b c
    → (ing : Ingress) (key : String) (ps : List HttpPath) → All (IsPlaced a b ing key) ps
    → All (IsPlaced a c ing key) ps
IsPlaced-later a b c g ing key [] h = tt
IsPlaced-later a b c g ing key (p ∷ ps) h =
    ((λ flag. g.serves key p (h.0 flag)), IsPlaced-later a b c g ing key ps h.1)

-- One path: the server `site` and the upstream `ups` are found, and `next` is the upstream afterwards.
placed_stage :
    (ing : Ingress) (key : String) (p : HttpPath) (st : Stage) (site : Site) (ups next : Backend)
    → get key st.servers ≡ some site
    → get (name_for ing p.backend) st.upstreams ≡ some ups
    → Adapted ups next
    → IsReady st
    → Steps st (record {
      servers = put key (placed_site ing p ups site) st.servers;
      upstreams = put (name_for ing p.backend) next st.upstreams;
    })
      × Serves (put key (placed_site ing p ups site) st.servers) key p
unfolding placed_site
placed_stage ing key p st site ups next found_site found_ups adapted ready =
    let mid : Stage = record st { servers = put key (placed_site ing p ups site) st.servers } in
    let one =
      put-servers st key site (placed_site ing p ups site) found_site
        (place_lasts ing p ups site.locations) in
    let two = put-upstreams mid (name_for ing p.backend) ups next found_ups adapted.0 in
    (
      (
        Progress-trans st mid
            (record mid { upstreams = put (name_for ing p.backend) next st.upstreams }) one two,
        record {
          has_default = ground (arith, one.hosts def_server_name, ready.has_default);
          writable =
              put-AllFound IsWritable (name_for ing p.backend) next st.upstreams
                (λ other. adapted.1) ready.writable;
        },
      ),
      (
        placed_site ing p ups site,
        ground (arith, get-put key key (placed_site ing p ups site) st.servers, eq_refl key),
        (place_serves ing p ups site.locations).0,
      ),
    )

place_path-Steps :
    (ing : Ingress) (host key : String) (p : HttpPath) (st : Stage)
    → IsReady st
    → member key st.servers ≡ true
    → IsNameable st ing p
    → Ends ⊥ (place_path ing host key p st) (λ st'. Steps st st' × IsPlaced st st' ing key p)
unfolding place_path
place_path-Steps ing host key p st ready held nameable =
    let name = name_for ing p.backend in
    let found = found-of-member name st.upstreams nameable.0 in
    let there = found-of-member key st.servers held in
    let Found : Backend → Type 0 = λ u. get name st.upstreams ≡ some u in
    let There : Site → Type 0 = λ s. get key st.servers ≡ some s in
    Ends-bind ⊥ (get name st.upstreams) _ Found _
      (Ends-of ⊥ (get name st.upstreams) Found found.0 found.1 found.1)
      (λ ups found_ups.
        Ends-if ⊥ ups.no_server (some st) _ _
          (λ unserved. (
            Steps-refl st ready,
            λ flag.
                let same : ups ≡ flag.0 = ground (arith, found_ups, flag.1) in
                ground (arith, subst (λ z. z.no_server ≡ true) same unserved, flag.2),
          ))
          (λ served.
            Ends-bind ⊥ (get key st.servers) _ There _
              (Ends-of ⊥ (get key st.servers) There there.0 there.1 there.1)
              (λ site found_site.
                Ends-bind ⊥
                  (with_affinity ing.parsed_annotations.session_affinity host site.server.aliases
                    p.path ups)
                  _ (Adapted ups) _
                  (with_affinity-Adapted ing.parsed_annotations.session_affinity host
                    site.server.aliases p.path ups (ready.writable name ups found_ups nameable.1))
                  (λ next adapted.
                    let done =
                      placed_stage ing key p st site ups next found_site found_ups adapted ready in
                    (done.0, λ flag. done.1)))))

place_paths-Steps :
    (ing : Ingress) (host key : String) (ps : List HttpPath) (st : Stage)
    → IsReady st
    → member key st.servers ≡ true
    → All (IsNameable st ing) ps
    → Ends ⊥
        (place_paths ing host key ps st)
        (λ st'. Steps st st' × All (IsPlaced st st' ing key) ps)
unfolding place_paths
place_paths-Steps ing host key [] st ready held nameable = (Steps-refl st ready, tt)
place_paths-Steps ing host key (p ∷ ps) st ready held nameable =
    Ends-bind ⊥ (place_path ing host key p st) _ (λ a. Steps st a × IsPlaced st a ing key p)
      (λ b. Steps st b × All (IsPlaced st b ing key) (p ∷ ps))
      (place_path-Steps ing host key p st ready held nameable.0)
      (λ a one.
        Ends-weaken ⊥ (place_paths ing host key ps a)
          (λ b. Steps a b × All (IsPlaced a b ing key) ps)
          (λ b. Steps st b × All (IsPlaced st b ing key) (p ∷ ps))
          (place_paths-Steps ing host key ps a one.0.1 (ground (arith, one.0.0.hosts key, held))
            (IsNameable-lasts st a one.0.0 ing ps nameable.1))
          (λ b two. (
            Steps-trans st a b one.0 two.0,
            (
              (λ flag. two.0.0.serves key p (one.1 flag)),
              IsPlaced-earlier st a b one.0.0 ing key ps two.1,
            ),
          )))

authenticated-Steps :
    (st : Stage) (key : String) (s : Site) (t : _)
    → get key st.servers ≡ some s
    → IsReady st
    → Steps st (record st { servers = put key (record s { server = t }) st.servers })
authenticated-Steps st key s t found ready =
    let one = put-servers st key s (record s { server = t }) found (λ q h. h) in
    (
      one,
      record {
        has_default = ground (arith, one.hosts def_server_name, ready.has_default);
        writable = ready.writable;
      },
    )

pub place_http-Steps :
    (location_only : Bool) (ing : Ingress) (host key : String) (http : Slice HttpPath) (st : Stage)
    → IsReady st
    → member key st.servers ≡ true
    → All (IsNameable st ing) (elems http)
    → Ends ⊥
        (place_http location_only ing host key http st)
        (λ st'. Steps st st' × All (IsPlaced st st' ing key) (elems http))
unfolding place_http
place_http-Steps location_only ing host key http st ready held nameable =
    let there = found-of-member key st.servers held in
    let There : Site → Type 0 = λ s. get key st.servers ≡ some s in
    Ends-bind ⊥ (get key st.servers) _ There _
      (Ends-of ⊥ (get key st.servers) There there.0 there.1 there.1)
      (λ site found.
        let a : Stage = record st {
          servers =
              put key
                (record site {
                  server = authenticated location_only ing.parsed_annotations site.server;
                })
                st.servers;
        } in
        let one =
          authenticated-Steps st key site
            (authenticated location_only ing.parsed_annotations site.server) found ready in
        Ends-weaken ⊥ (place_paths ing host key (elems http) a)
          (λ b. Steps a b × All (IsPlaced a b ing key) (elems http))
          (λ b. Steps st b × All (IsPlaced st b ing key) (elems http))
          (place_paths-Steps ing host key (elems http) a one.1
            (ground (arith, one.0.hosts key, held))
            (IsNameable-lasts st a one.0 ing (elems http) nameable))
          (λ b two. (
            Steps-trans st a b one two.0,
            IsPlaced-earlier st a b one.0 ing key (elems http) two.1,
          )))

pub server_key-held :
    (host : String) (m : Map Site)
    → member def_server_name m ≡ true
    → member (server_key host m) m ≡ true
server_key-held host m h =
    if-cases (λ k. member k m ≡ true) (member host m) host def_server_name (λ there. there)
      (λ missing. h)
