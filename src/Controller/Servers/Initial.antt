-- ===== src/Controller/Servers/Initial.antt =====
-- internal/ingress/controller/controller.go, createServers: what the first loop over the ingresses makes.
use ingress_nginx.Prelude.{
  ℕ, true, Option, none, some, List, [], ◌∷◌, String, string_eq, ◌≡◌, refl, arith, All, Bool-cases,
  inl, inr,
}
use ingress_nginx.Api.{Ref, Rule}
use ingress_nginx.Maps.{Map, get, put, member}
use ingress_nginx.Maps.All.{put-AllFound, put-has_key, found-of-member}
use ingress_nginx.Panics.{Ends, Ends-bind, Ends-if, Ends-of, ◌>>=◌, Ends-weaken}
use ingress_nginx.Types.Backend.{Backend}
use ingress_nginx.Types.Ingress.{Ingress}
use ingress_nginx.Types.Location.{Location}
use ingress_nginx.Controller.Annotated.{location_apply_annotations}
use ingress_nginx.Controller.Servers.{
  Site, Settings, default_site, catch_all_location, catch_all, host_of, new_site, init_rule,
  init_rules, adopt, backend_upstream, init_ingress, init_ingresses,
}
use ingress_nginx.Controller.Upstreams.Merging.{def_server_name}
use ingress_nginx.Controller.Servers.Rooted.{
  IsRooted, IsFresh, Holding, Grown, Grown-refl, Grown-trans, put-Grown, HasHosts, IsCovered,
  KeepsKeys-IsCovered,
}

catch_all_location-path :
    (ing : Ingress) (ups : Backend) (l : Location)
    → ((catch_all_location ing ups l).path ≡ l.path)
      × ((catch_all_location ing ups l).path_type ≡ l.path_type)
unfolding catch_all_location location_apply_annotations
catch_all_location-path ing ups l = (ground arith, ground arith)

new_site-IsRooted :
    (fresh : String → ℕ) (ing : Ingress) (un host : String)
    → IsRooted host (new_site fresh ing un host)
unfolding new_site location_apply_annotations
new_site-IsRooted fresh ing un host = record {
  named = refl;
  root = _;
  rest = _;
  split = refl;
  path = refl;
  path_type = refl;
}

pub default_site-Holding :
    (settings : Settings) (du : Backend)
    → Holding
        (IsFresh settings.default_ssl_certificate)
        ((def_server_name, default_site settings du) ∷ [])
unfolding get put default_site
default_site-Holding settings du =
    let site = default_site settings du in
    let fresh : IsFresh settings.default_ssl_certificate def_server_name site = record {
      rooted = record {
        named = refl;
        root = _;
        rest = _;
        split = refl;
        path = refl;
        path_type = refl;
      };
      aliases = refl;
      ssl_cert = inr refl;
    } in
    (
      put-AllFound (IsFresh settings.default_ssl_certificate) def_server_name site [] fresh
          (λ k s h. ground (arith, h)),
      put-has_key def_server_name site [],
    )

module _ (cert : Ref) where
  new_site-IsFresh :
      (fresh : String → ℕ) (ing : Ingress) (un host : String)
      → IsFresh cert host (new_site fresh ing un host)
  unfolding new_site
  new_site-IsFresh fresh ing un host = record {
    rooted = new_site-IsRooted fresh ing un host;
    aliases = refl;
    ssl_cert = inl refl;
  }

  init_rule-Grown :
      (fresh : String → ℕ) (ing : Ingress) (un : String) (r : Rule) (m : Map Site)
      → Holding (IsFresh cert) m
      → Grown (IsFresh cert) m (init_rule fresh ing un r m)
        × (member (host_of r) (init_rule fresh ing un r m) ≡ true)
  unfolding init_rule
  init_rule-Grown fresh ing un q m r =
      let site = new_site fresh ing un (host_of q) in
      elim (Bool-cases (member (host_of q) m)) [
        | inl old ↦ rw old (Grown-refl (IsFresh cert) m r, old)
        | inr missing ↦ rw missing (
          put-Grown (IsFresh cert) (host_of q) site m r (new_site-IsFresh fresh ing un (host_of q)),
          put-has_key (host_of q) site m,
        )
      ]

  init_rules-Grown :
      (fresh : String → ℕ) (ing : Ingress) (un : String) (rs : List Rule) (m : Map Site)
      → Holding (IsFresh cert) m
      → Grown (IsFresh cert) m (init_rules fresh ing un rs m)
        × HasHosts rs (init_rules fresh ing un rs m)
  unfolding init_rules
  init_rules-Grown fresh ing un [] m r = (Grown-refl (IsFresh cert) m r, tt)
  init_rules-Grown fresh ing un (q ∷ rs) m r =
      let next = init_rule fresh ing un q m in
      let one = init_rule-Grown fresh ing un q m r in
      let all = init_rules-Grown fresh ing un rs next one.0.0 in
      (
        Grown-trans (IsFresh cert) m next (init_rules fresh ing un rs next) one.0 all.0,
        (all.0.1 (host_of q) one.1, all.1),
      )

  catch_all-found :
      (ing : Ingress) (ups : Backend) (m : Map Site) (site : Site) (l : Location)
      (ls : List Location)
      → get def_server_name m ≡ some site
      → site.locations ≡ l ∷ ls
      → catch_all ing ups m
        ≡ some
            (put def_server_name (record site { locations = catch_all_location ing ups l ∷ ls }) m)
  unfolding catch_all
  catch_all-found ing ups m site l ls h e = ground (arith, h, e)

  catch_all-Grown :
      (ing : Ingress) (ups : Backend) (m : Map Site)
      → Holding (IsFresh cert) m
      → Ends ⊥ (catch_all ing ups m) (Grown (IsFresh cert) m)
  catch_all-Grown ing ups m r =
      let held = found-of-member def_server_name m r.1 in
      let old = r.0 def_server_name held.0 held.1 in
      let rooted = old.rooted in
      let kept = catch_all_location-path ing ups rooted.root in
      Ends-of ⊥ (catch_all ing ups m) (Grown (IsFresh cert) m) _
        (catch_all-found ing ups m held.0 rooted.root rooted.rest held.1 rooted.split)
        (put-Grown (IsFresh cert) def_server_name _ m r (record {
          rooted = record {
            named = rooted.named;
            root = catch_all_location ing ups rooted.root;
            rest = rooted.rest;
            split = refl;
            path = cc;
            path_type = cc;
          };
          aliases = old.aliases;
          ssl_cert = old.ssl_cert;
        }))

  adopt-Grown :
      (ing : Ingress) (du : Backend) (found : Option Backend) (m : Map Site)
      → Holding (IsFresh cert) m
      → Ends ⊥ (adopt ing du found m) (λ p. Grown (IsFresh cert) m p.1)
  unfolding adopt
  adopt-Grown ing du none m r = Grown-refl (IsFresh cert) m r
  adopt-Grown ing du (some ups) m r =
      Ends-bind ⊥ (catch_all ing ups m) (λ n. some (ups.name, n)) (Grown (IsFresh cert) m)
        (λ p. Grown (IsFresh cert) m p.1) (catch_all-Grown ing ups m r) (λ n g. g)

  init_ingress-Grown :
      (fresh : String → ℕ) (upstreams : Map Backend) (du : Backend) (ing : Ingress) (m : Map Site)
      → Holding (IsFresh cert) m
      → Ends ⊥
          (init_ingress fresh upstreams du ing m)
          (λ n. Grown (IsFresh cert) m n × IsCovered n ing)
  unfolding init_ingress
  init_ingress-Grown fresh upstreams du ing m r =
      Ends-if ⊥ ing.parsed_annotations.canary.enabled (some m)
        (adopt ing du (backend_upstream ing upstreams) m >>= λ p.
          some (init_rules fresh ing p.0 ing.rules p.1))
        (λ n. Grown (IsFresh cert) m n × IsCovered n ing)
        (λ marked. (Grown-refl (IsFresh cert) m r, inl marked))
        (λ plain.
          Ends-bind ⊥ (adopt ing du (backend_upstream ing upstreams) m)
            (λ p. some (init_rules fresh ing p.0 ing.rules p.1)) (λ p. Grown (IsFresh cert) m p.1)
            (λ n. Grown (IsFresh cert) m n × IsCovered n ing)
            (adopt-Grown ing du (backend_upstream ing upstreams) m r)
            (λ p g.
              let ruled = init_rules-Grown fresh ing p.0 ing.rules p.1 g.0 in
              (
                Grown-trans (IsFresh cert) m p.1 (init_rules fresh ing p.0 ing.rules p.1) g ruled.0,
                inr ruled.1,
              )))

  -- The first loop returns, with rooted servers for all hosts.
  pub init_ingresses-Grown :
      (fresh : String → ℕ) (upstreams : Map Backend) (du : Backend) (ings : List Ingress)
      (m : Map Site)
      → Holding (IsFresh cert) m
      → Ends ⊥
          (init_ingresses fresh upstreams du ings m)
          (λ n. Grown (IsFresh cert) m n × All (IsCovered n) ings)
  unfolding init_ingresses
  init_ingresses-Grown fresh upstreams du [] m r = (Grown-refl (IsFresh cert) m r, tt)
  init_ingresses-Grown fresh upstreams du (ing ∷ ings) m r =
      Ends-bind ⊥ (init_ingress fresh upstreams du ing m) (init_ingresses fresh upstreams du ings)
        (λ n. Grown (IsFresh cert) m n × IsCovered n ing)
        (λ n. Grown (IsFresh cert) m n × All (IsCovered n) (ing ∷ ings))
        (init_ingress-Grown fresh upstreams du ing m r)
        (λ n g.
          Ends-weaken ⊥ (init_ingresses fresh upstreams du ings n)
            (λ o. Grown (IsFresh cert) n o × All (IsCovered o) ings)
            (λ o. Grown (IsFresh cert) m o × All (IsCovered o) (ing ∷ ings))
            (init_ingresses-Grown fresh upstreams du ings n g.0.0)
            (λ o h. (
              Grown-trans (IsFresh cert) m n o g.0 h.0,
              (KeepsKeys-IsCovered n o h.0.1 ing g.1, h.1),
            )))
