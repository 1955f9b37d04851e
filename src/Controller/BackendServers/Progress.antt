-- ===== src/Controller/BackendServers/Progress.antt =====
-- What the steps of getBackendServers keep.
use ingress_nginx.Prelude.{
  Bool, true, false, some, List, ◌∷◌, Slice, elems, String, ◌==◌, string_eq, ◌≡◌, refl, sym, ◌∙◌,
  subst, arith, Some, Bool-cases, inl, inr, eq-of-test,
}
use ingress_nginx.Api.{HttpPath}
use ingress_nginx.Annotations.SessionAffinity
use ingress_nginx.Maps.{Map, get, put, member, get-put}
use ingress_nginx.Maps.All.{AllFound}
use ingress_nginx.Panics.{Ends, Ends-bind, Ends-if}
use ingress_nginx.Types.Backend.{Backend, CookieSessionAffinity}
use ingress_nginx.Controller.BackendServers.{Stage}
use ingress_nginx.Controller.BackendServers.Affinity.{with_cookie, with_affinity}
use ingress_nginx.Controller.Placing.Laws.{IsFor}
use ingress_nginx.Controller.Servers.{Site}
use ingress_nginx.Controller.Upstreams.{def_upstream_name}
use ingress_nginx.Controller.Upstreams.Merging.{def_server_name}

-- Some location of the server `key` is for the path `q`.
abbrev pub Serves : Map Site → String → HttpPath → Type 0
Serves m key q = (s : Site) × (get key m ≡ some s) × Some (IsFor q) s.locations

-- There is an upstream under the name, and it says `b` of NoServer.
abbrev pub HasFlag : Map Backend → String → Bool → Type 0
HasFlag m k b = (u : Backend) × (get k m ≡ some u) × (u.no_server ≡ b)

pub record Progress (st st' : Stage) : Type 0 where
  pub hosts : (k : String) → member k st'.servers ≡ member k st.servers
  pub serves : (k : String) (q : HttpPath) → Serves st.servers k q → Serves st'.servers k q
  pub flags : (k : String) (b : Bool) → HasFlag st.upstreams k b → HasFlag st'.upstreams k b

pub Progress-refl : (st : Stage) → Progress st st
Progress-refl st = record { hosts = λ k. refl; serves = λ k q h. h; flags = λ k b h. h }

pub Progress-trans : (a b c : Stage) → Progress a b → Progress b c → Progress a c
Progress-trans a b c g h = record {
  hosts = λ k. ground (arith, g.hosts k, h.hosts k);
  serves = λ k q x. h.serves k q (g.serves k q x);
  flags = λ k f x. h.flags k f (g.flags k f x);
}

-- Only the default upstream may have a nil map of cookie locations.
abbrev pub IsWritable : String → Backend → Type 0
IsWritable k u =
    (k == def_upstream_name) ≡ false
    → (locs : Map (Slice String)) × (u.session_affinity.cookie_session_affinity.locations
        ≡ some locs)

pub record IsReady (st : Stage) : Type 0 where
  pub has_default : member def_server_name st.servers ≡ true
  pub writable : AllFound IsWritable st.upstreams

-- One server replaced, with locations for the paths that had some.
pub put-servers :
    (st : Stage) (key : String) (s t : Site)
    → get key st.servers ≡ some s
    → ((q : HttpPath) → Some (IsFor q) s.locations → Some (IsFor q) t.locations)
    → Progress st (record st { servers = put key t st.servers })
put-servers st key s t found lasts = record {
  hosts = λ k. ground (arith, get-put key k t st.servers, eq-of-test key k, found);
  serves = λ k q x. elim (Bool-cases (key == k)) [
    | inl same ↦
        let here : s ≡ x.0 = ground (arith, eq-of-test key k same, found, x.1) in
        (
          t,
          ground (arith, get-put key k t st.servers, same),
          lasts q (subst (λ z. Some (IsFor q) z.locations) (sym here) x.2),
        )
    | inr other ↦ (x.0, ground (arith, get-put key k t st.servers, other, x.1), x.2)
  ];
  flags = λ k b x. x;
}

-- One upstream replaced by one with the same flag.
pub put-upstreams :
    (st : Stage) (key : String) (u v : Backend)
    → get key st.upstreams ≡ some u
    → v.no_server ≡ u.no_server
    → Progress st (record st { upstreams = put key v st.upstreams })
put-upstreams st key u v found same_flag = record {
  hosts = λ k. refl;
  serves = λ k q x. x;
  flags = λ k b x. elim (Bool-cases (key == k)) [
    | inl same ↦
        let here : u ≡ x.0 = ground (arith, eq-of-test key k same, found, x.1) in
        (
          v,
          ground (arith, get-put key k v st.upstreams, same),
          same_flag ∙ subst (λ z. z.no_server ≡ b) (sym here) x.2,
        )
    | inr other ↦ (x.0, ground (arith, get-put key k v st.upstreams, other, x.1), x.2)
  ];
}

-- What the session affinity leaves.
abbrev pub Adapted : Backend → Backend → Type 0
Adapted u v =
    (v.no_server ≡ u.no_server)
    × ((locs : Map (Slice String)) × (v.session_affinity.cookie_session_affinity.locations
          ≡ some locs))

-- The cookie's map of locations is not nil.
abbrev HasMap : CookieSessionAffinity → Type 0
HasMap c = (locs : Map (Slice String)) × (c.locations ≡ some locs)

with_cookie-HasMap :
    (cookie : SessionAffinity.Cookie) (path : String) (hosts : List String)
    (c : CookieSessionAffinity)
    → HasMap c
    → Ends ⊥ (with_cookie cookie path hosts c) HasMap
unfolding with_cookie
with_cookie-HasMap cookie path hosts c (locs, h) = rw (h, Ends) (_, refl)

pub with_affinity-Adapted :
    (anns : SessionAffinity.Config) (host : String) (aliases : Slice String) (path : String)
    (u : Backend)
    → HasMap u.session_affinity.cookie_session_affinity
    → Ends ⊥ (with_affinity anns host aliases path u) (Adapted u)
unfolding with_affinity
with_affinity-Adapted anns host aliases path u h =
    Ends-if ⊥ (anns.type == "cookie") _ _ (Adapted u)
      (λ cookie.
        Ends-bind ⊥
          (with_cookie anns.cookie path (host ∷ elems aliases)
            u.session_affinity.cookie_session_affinity)
          _ HasMap (Adapted u)
          (with_cookie-HasMap anns.cookie path (host ∷ elems aliases)
            u.session_affinity.cookie_session_affinity h)
          (λ c m. (refl, m)))
      (λ other. (refl, h))
