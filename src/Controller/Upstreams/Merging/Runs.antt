-- ===== src/Controller/Upstreams/Merging/Runs.antt =====
-- The loop over the locations returns where every location has an upstream and a path type.
use ingress_nginx.Prelude.{
  Bool, true, false, Option, none, some, List, [], ◌∷◌, elems, String, ◌==◌, string_eq, ◌≡◌, refl,
  ap, inl, inr, arith, Bool-cases, eq_refl, All, Some,
}
use ingress_nginx.Maps.{Map, get, put, contains, contains-append, contains-cons}
use ingress_nginx.Types.Backend.{Backend}
use ingress_nginx.Types.Location.{Location}
use ingress_nginx.Controller.Upstreams.Merging.{
  Merge, can_merge_backend, merge_alternative_backend, merge_locations,
}
use ingress_nginx.Controller.Upstreams.Merging.Laws.{IsGrown, Step, put-Step, merge-IsGrown}

-- An upstream that the loop leaves with the alternative.
pub merge-attaches :
    (pri alt : Backend)
    → can_merge_backend pri alt ≡ true
    → ((merge_alternative_backend pri alt).1 ≡ true)
      × (contains (elems (merge_alternative_backend pri alt).0.alternative_backends) alt.name
          ≡ true)
unfolding can_merge_backend merge_alternative_backend
merge-attaches pri alt can =
    let grown = contains-append (elems pri.alternative_backends) (alt.name ∷ []) alt.name in
    let last = contains-cons alt.name [] alt.name in
    (ground arith, ground (arith, grown, last, eq_refl alt.name))

-- The loop gets past a location: its upstream exists and is not the alternative, and its test does
-- not read a nil path type.
pub record Passes (wanted : Location → Option Bool) (alt : Backend) (m : Map Backend) (l : Location)
    : Type 0 where
  pub primary : Backend
  pub found : get l.backend m ≡ some primary
  pub differs : alt.name == primary.name ≡ false
  pub test : Bool
  pub tested : wanted l ≡ some test

-- The loop merges at a location, into the upstream under `k`.
pub record Matches (wanted : Location → Option Bool) (alt : Backend) (k : String) (m : Map Backend)
    (l : Location) : Type 0 where
  pub here : l.backend ≡ k
  pub primary : Backend
  pub found : get k m ≡ some primary
  pub can : can_merge_backend primary alt ≡ true
  pub hit : wanted l ≡ some true

pub Step-after :
    (o p : Option Backend) (u : Backend)
    → Step o p
    → o ≡ some u
    → (v : Backend) × ((p ≡ some v) × IsGrown u v)
Step-after (some w) (some v) u g h = let same : w ≡ u = ground arith in (v, (refl, rw (← same) g))
Step-after none none u g h = ground arith
Step-after none (some v) u g h = absurd g
Step-after (some w) none u g h = absurd g

module _ (wanted : Location → Option Bool) (alt : Backend) where
  Passes-Step :
      (m n : Map Backend) (l : Location)
      → ((j : String) → Step (get j m) (get j n))
      → Passes wanted alt m l
      → Passes wanted alt n l
  Passes-Step m n l steps p =
      let after =
        Step-after (get l.backend m) (get l.backend n) p.primary (steps l.backend) p.found in
      record {
        primary = after.0;
        found = after.1.0;
        differs = rw (← ap (λ u. u.name) after.1.1.same) p.differs;
        test = p.test;
        tested = p.tested;
      }

  Matches-Step :
      (k : String) (m n : Map Backend) (l : Location)
      → ((j : String) → Step (get j m) (get j n))
      → Matches wanted alt k m l
      → Matches wanted alt k n l
  unfolding can_merge_backend
  Matches-Step k m n l steps p =
      let after = Step-after (get k m) (get k n) p.primary (steps k) p.found in
      let name : p.primary.name ≡ after.0.name = ap (λ u. u.name) after.1.1.same in
      let server : p.primary.no_server ≡ after.0.no_server = ap (λ u. u.no_server) after.1.1.same in
      record {
        here = p.here;
        primary = after.0;
        found = after.1.0;
        can = rw (← name) (rw (← server) p.can);
        hit = p.hit;
      }

  abbrev pub AllPass : Map Backend → List Location → Type 0
  AllPass m ls = All (Passes wanted alt m) ls

  pub AllPass-Step :
      (m n : Map Backend) (ls : List Location)
      → ((j : String) → Step (get j m) (get j n))
      → AllPass m ls
      → AllPass n ls
  AllPass-Step m n [] steps p = tt
  AllPass-Step m n (l ∷ ls) steps p = (Passes-Step m n l steps p.0, AllPass-Step m n ls steps p.1)

  pub Match-Step :
      (k : String) (m n : Map Backend) (ls : List Location)
      → ((j : String) → Step (get j m) (get j n))
      → Some (Matches wanted alt k m) ls
      → Some (Matches wanted alt k n) ls
  Match-Step k m n [] steps p = p
  Match-Step k m n (l ∷ ls) steps (inl p) = inl (Matches-Step k m n l steps p)
  Match-Step k m n (l ∷ ls) steps (inr p) = inr (Match-Step k m n ls steps p)

  -- What the loop's result is where all locations pass.
  abbrev pub Runs : List Location → Bool → Map Backend → Merge → Type 0
  Runs ls merged m r =
      (merge_locations wanted alt ls merged m ≡ some r)
      × ((r.alt_equals_pri ≡ false) × (merged ≡ true → r.merged ≡ true))

  pub merge_locations-Runs :
      (ls : List Location) (merged : Bool) (m : Map Backend)
      → AllPass m ls
      → (r : Merge) × Runs ls merged m r
  unfolding merge_locations
  merge_locations-Runs [] merged m p =
      (record { upstreams = m; merged = merged; alt_equals_pri = false }, (refl, (refl, λ h. h)))
  merge_locations-Runs (l ∷ ls) merged m (p, ps) =
      let next = merge_alternative_backend p.primary alt in
      let m' = put l.backend next.0 m in
      let skip = merge_locations-Runs ls merged m ps in
      elim (Bool-cases (can_merge_backend p.primary alt)) [
        | inr cannot ↦ (skip.0, (ground (arith, p.found, p.differs, skip.1.0), skip.1.1))
        | inl can ↦ elim (Bool-cases p.test) [
          | inr misses ↦
              (skip.0, (ground (arith, p.found, p.differs, p.tested, skip.1.0), skip.1.1))
          | inl hits ↦
              let steps =
                put-Step l.backend p.primary next.0 m p.found (merge-IsGrown p.primary alt can) in
              let rest = merge_locations-Runs ls next.1 m' (AllPass-Step m m' ls steps ps) in
              (
                rest.0,
                (
                  ground (arith, p.found, p.differs, p.tested, rest.1.0),
                  (rest.1.1.0, λ h. rest.1.1.1 (merge-attaches p.primary alt can).0),
                ),
              )
        ]
      ]
