-- ===== src/Template/Modules/Loaded.antt =====
-- A location uses the directives of a module only if the module is loaded.
use ingress_nginx.Prelude.{
  Bool, true, false, ◌||◌, List, [], ◌∷◌, ◌≡◌, ◌⊎◌, inl, inr, arith, All, Bool-cases, string_eq,
}
use ingress_nginx.Types.Location.{Location}
use ingress_nginx.Controller.Servers.{Site}
use ingress_nginx.Template.Modules.{
  Config, any_location, any_server, should_load_mod_security_module, should_load_opentracing_module,
  should_load_influxdb_module, build_mod_security_for_location, build_opentracing_for_location,
  build_influxdb,
}

-- The location has no directive of the module unless the module is loaded.
pub record UsesLoaded (cfg : Config) (servers : List Site) (l : Location) : Type 0 where
  pub mod_security :
      (build_mod_security_for_location cfg l ≡ "")
      ⊎ (should_load_mod_security_module cfg servers ≡ true)
  pub opentracing :
      (build_opentracing_for_location cfg.enable_opentracing l ≡ "")
      ⊎ (should_load_opentracing_module cfg servers ≡ true)
  pub influxdb : (build_influxdb l.influxdb ≡ "") ⊎ (should_load_influxdb_module servers ≡ true)

-- A test that no location passes unless `found`.
abbrev Finds : (Location → Bool) → Bool → Location → Type 0
Finds test found l = (test l ≡ false) ⊎ (found ≡ true)

any_location-Finds :
    (test : Location → Bool) (ls : List Location) (found : Bool)
    → (any_location test ls ≡ true → found ≡ true)
    → All (Finds test found) ls
unfolding any_location
any_location-Finds test [] found h = tt
any_location-Finds test (l ∷ ls) found h = (
  elim (Bool-cases (test l)) [
    | inl passes ↦ inr (h (ground (arith, passes)))
    | inr fails ↦ inl fails
  ],
  any_location-Finds test ls found (λ k. h (ground (arith, k))),
)

any_server-Finds :
    (test : Location → Bool) (ss : List Site) (found : Bool)
    → (any_server test ss ≡ true → found ≡ true)
    → All (λ s. All (Finds test found) s.locations) ss
unfolding any_server
any_server-Finds test [] found h = tt
any_server-Finds test (s ∷ ss) found h = (
  any_location-Finds test s.locations found (λ k. h (ground (arith, k))),
  any_server-Finds test ss found (λ k. h (ground (arith, k))),
)

-- What three tests say of a location is what they say together.
together :
    {A B C D : Location → Type 0}
    → ((l : Location) → A l → B l → C l → D l)
    → (ls : List Location) → All A ls
    → All B ls
    → All C ls
    → All D ls
together f [] a b c = tt
together f (l ∷ ls) (a, as') (b, bs) (c, cs) = (f l a b c, together f ls as' bs cs)

together_servers :
    {A B C D : Location → Type 0}
    → ((l : Location) → A l → B l → C l → D l)
    → (ss : List Site) → All (λ s. All A s.locations) ss
    → All (λ s. All B s.locations) ss
    → All (λ s. All C s.locations) ss
    → All (λ s. All D s.locations) ss
together_servers f [] a b c = tt
together_servers f (s ∷ ss) (a, as') (b, bs) (c, cs) =
    (together f s.locations a b c, together_servers f ss as' bs cs)

mod_security_loaded :
    (cfg : Config) (l : Location) (found : Bool)
    → Finds (λ l. l.mod_security.enable) found l
    → (build_mod_security_for_location cfg l ≡ "") ⊎ ((cfg.enable_modsecurity || found) ≡ true)
unfolding build_mod_security_for_location
mod_security_loaded cfg l found (inr loaded) = inr (ground (arith, loaded))
mod_security_loaded cfg l found (inl off) = elim (Bool-cases cfg.enable_modsecurity) [
  | inl on ↦ inr (ground (arith, on))
  | inr unset ↦ inl (ground (arith, unset, off))
]

opentracing_loaded :
    (cfg : Config) (l : Location) (found : Bool)
    → Finds (λ l. l.opentracing.enabled) found l
    → (build_opentracing_for_location cfg.enable_opentracing l ≡ "")
      ⊎ ((cfg.enable_opentracing || found) ≡ true)
unfolding build_opentracing_for_location
opentracing_loaded cfg l found (inr loaded) = inr (ground (arith, loaded))
opentracing_loaded cfg l found (inl off) = elim (Bool-cases cfg.enable_opentracing) [
  | inl on ↦ inr (ground (arith, on))
  | inr unset ↦ inl (ground (arith, unset, off))
]

influxdb_loaded :
    (l : Location) (found : Bool)
    → Finds (λ l. l.influxdb.influxdb_enabled) found l
    → (build_influxdb l.influxdb ≡ "") ⊎ (found ≡ true)
unfolding build_influxdb
influxdb_loaded l found (inr loaded) = inr loaded
influxdb_loaded l found (inl off) = inl (ground (arith, off))

-- For every location of every server, each of the directives of buildModSecurityForLocation,
-- buildOpentracingForLocation (with EnableOpentracing of the configuration) and buildInfluxDB is empty, or
-- the test for its module says that it is loaded.
pub modules_are_loaded :
    (cfg : Config) (servers : List Site)
    → All (λ s. All (UsesLoaded cfg servers) s.locations) servers
unfolding should_load_mod_security_module should_load_opentracing_module should_load_influxdb_module
modules_are_loaded cfg servers =
    let security = any_server (λ l. l.mod_security.enable) servers in
    let tracing = any_server (λ l. l.opentracing.enabled) servers in
    let influx = any_server (λ l. l.influxdb.influxdb_enabled) servers in
    together_servers
      (λ l a b c. record {
        mod_security = mod_security_loaded cfg l security a;
        opentracing = opentracing_loaded cfg l tracing b;
        influxdb = influxdb_loaded l influx c;
      })
      servers (any_server-Finds (λ l. l.mod_security.enable) servers security (λ h. h))
      (any_server-Finds (λ l. l.opentracing.enabled) servers tracing (λ h. h))
      (any_server-Finds (λ l. l.influxdb.influxdb_enabled) servers influx (λ h. h))
