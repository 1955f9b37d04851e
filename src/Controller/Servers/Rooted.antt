-- ===== src/Controller/Servers/Rooted.antt =====
-- The servers stand under their names, and each of them has a root location.
use ingress_nginx.Prelude.{
  true, none, some, List, [], ◌∷◌, String, string_eq, ◌≡◌, All, ◌⊎◌, inl, inr,
}
use ingress_nginx.Api.{Ref, Rule, prefix}
use ingress_nginx.Maps.{Map, put, member}
use ingress_nginx.Maps.All.{AllFound, put-AllFound, KeepsKeys, put-KeepsKeys}
use ingress_nginx.Types.Ingress.{Ingress}
use ingress_nginx.Types.Location.{Location}
use ingress_nginx.Controller.Locations.{root_location}
use ingress_nginx.Controller.Servers.{Site, host_of}
use ingress_nginx.Controller.Upstreams.Merging.{def_server_name}

-- The server has its name, and a first location for the root.
pub record IsRooted (k : String) (s : Site) : Type 0 where
  pub named : s.server.hostname ≡ k
  pub root : Location
  pub rest : List Location
  pub split : s.locations ≡ root ∷ rest
  pub path : root.path ≡ root_location
  pub path_type : root.path_type ≡ some prefix

-- A server as the first loop makes it: without aliases, and with the default certificate if with any.
pub record IsFresh (cert : Ref) (k : String) (s : Site) : Type 0 where
  pub rooted : IsRooted k s
  pub aliases : s.server.aliases ≡ none
  pub ssl_cert : (s.server.ssl_cert ≡ none) ⊎ (s.server.ssl_cert ≡ cert)

module _ (P : String → Site → Type 0) where
  -- The servers have the property, and the default one is there.
  abbrev pub Holding : Map Site → Type 0
  Holding m = AllFound P m × (member def_server_name m ≡ true)

  -- What a step makes of the servers: the property stays, and none is lost.
  abbrev pub Grown : Map Site → Map Site → Type 0
  Grown m n = Holding n × KeepsKeys m n

  pub Grown-refl : (m : Map Site) → Holding m → Grown m m
  Grown-refl m r = (r, λ k h. h)

  pub Grown-trans : (m n o : Map Site) → Grown m n → Grown n o → Grown m o
  Grown-trans m n o g h = (h.0, λ k e. h.1 k (g.1 k e))

  pub put-Grown : (k : String) (s : Site) (m : Map Site) → Holding m → P k s → Grown m (put k s m)
  put-Grown k s m r i =
      ((put-AllFound P k s m i r.0, put-KeepsKeys k s m def_server_name r.1), put-KeepsKeys k s m)

-- Every rule has a server under its host.
abbrev pub HasHosts : List Rule → Map Site → Type 0
HasHosts rs m = All (λ r. member (host_of r) m ≡ true) rs

pub KeepsKeys-HasHosts :
    (m n : Map Site) → KeepsKeys m n → (rs : List Rule) → HasHosts rs m → HasHosts rs n
KeepsKeys-HasHosts m n k [] h = tt
KeepsKeys-HasHosts m n k (r ∷ rs) h = (k (host_of r) h.0, KeepsKeys-HasHosts m n k rs h.1)

-- The ingress is a canary, or every rule of it has a server.
abbrev pub IsCovered : Map Site → Ingress → Type 0
IsCovered m ing = (ing.parsed_annotations.canary.enabled ≡ true) ⊎ HasHosts ing.rules m

pub KeepsKeys-IsCovered :
    (m n : Map Site) → KeepsKeys m n → (ing : Ingress) → IsCovered m ing → IsCovered n ing
KeepsKeys-IsCovered m n k ing (inl marked) = inl marked
KeepsKeys-IsCovered m n k ing (inr hosts) = inr (KeepsKeys-HasHosts m n k ing.rules hosts)

pub KeepsKeys-All :
    (m n : Map Site)
    → KeepsKeys m n
    → (ings : List Ingress) → All (IsCovered m) ings
    → All (IsCovered n) ings
KeepsKeys-All m n k [] h = tt
KeepsKeys-All m n k (ing ∷ ings) h =
    (KeepsKeys-IsCovered m n k ing h.0, KeepsKeys-All m n k ings h.1)
