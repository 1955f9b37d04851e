-- ===== src/Controller/Upstreams/Merging/Attached.antt =====
-- The upstream of a canary ingress becomes an alternative of the upstream of each location that it
-- matches, and stays in the map.
use ingress_nginx.Prelude.{
  Bool, true, false, Option, some, List, [], ◌∷◌, elems, String, string_eq, ◌≡◌, inl, inr, arith,
  Bool-cases, eq_refl, Some,
}
use ingress_nginx.Maps.{Map, get, put, get-put, contains}
use ingress_nginx.Types.Backend.{Backend}
use ingress_nginx.Types.Location.{Location}
use ingress_nginx.Controller.Upstreams.Merging.{
  Merge, can_merge_backend, merge_alternative_backend, merge_locations, merge_and_settle, settle,
}
use ingress_nginx.Controller.Upstreams.Merging.Laws.{
  IsGrown, put-Step, merge-IsGrown, merge_locations-Step,
}
use ingress_nginx.Controller.Upstreams.Merging.Runs.{
  Matches, AllPass, AllPass-Step, Match-Step, merge_locations-Runs, merge-attaches, Step-after,
}

module _ (wanted : Location → Option Bool) (alt : Backend) where
  -- The upstream under `k` has the alternative, and the loop knows that it merged.
  abbrev Attached : String → Merge → Type 0
  Attached k r =
      (r.merged ≡ true)
      × ((v : Backend) × ((get k r.upstreams ≡ some v)
            × (contains (elems v.alternative_backends) alt.name ≡ true)))

  -- A location that matches is where the loop goes on with the grown upstream.
  matched-Attached :
      (k : String) (l : Location) (ls : List Location) (merged : Bool) (m : Map Backend) (r : Merge)
      → AllPass wanted alt m (l ∷ ls)
      → Matches wanted alt k m l
      → merge_locations wanted alt (l ∷ ls) merged m ≡ some r
      → Attached k r
  unfolding merge_locations
  matched-Attached k l ls merged m r (p, ps) q h =
      let at_l : get l.backend m ≡ some q.primary = rw q.here q.found in
      let same : p.primary ≡ q.primary = ground (arith, p.found, at_l) in
      let can : can_merge_backend p.primary alt ≡ true = rw same q.can in
      let next = merge_alternative_backend p.primary alt in
      let m' = put l.backend next.0 m in
      let attaches = merge-attaches p.primary alt can in
      let steps = put-Step l.backend p.primary next.0 m p.found (merge-IsGrown p.primary alt can) in
      let rest : merge_locations wanted alt ls next.1 m' ≡ some r =
        ground (arith, h, p.found, p.differs, can, q.hit) in
      let run =
        merge_locations-Runs wanted alt ls next.1 m' (AllPass-Step wanted alt m m' ls steps ps) in
      let run-is : run.0 ≡ r = ground (arith, rest, run.1.0) in
      let put-found : get k m' ≡ some next.0 =
        ground (arith, get-put l.backend k next.0 m, q.here, eq_refl k) in
      let after =
        Step-after (get k m') (get k r.upstreams) next.0
          (merge_locations-Step wanted alt ls next.1 m' r rest k) put-found in
      (
        rw (← run-is) (run.1.1.1 attaches.0),
        (after.0, (after.1.0, after.1.1.more alt.name attaches.1)),
      )

  Attached-when_matched :
      (k : String) (ls : List Location) (merged : Bool) (m : Map Backend) (r : Merge)
      → AllPass wanted alt m ls
      → Some (Matches wanted alt k m) ls
      → merge_locations wanted alt ls merged m ≡ some r
      → Attached k r
  unfolding merge_locations
  Attached-when_matched k [] merged m r ps q h = absurd q
  Attached-when_matched k (l ∷ ls) merged m r ps (inl q) h =
      matched-Attached k l ls merged m r ps q h
  Attached-when_matched k (l ∷ ls) merged m r (p, ps) (inr q) h =
      let next = merge_alternative_backend p.primary alt in
      let m' = put l.backend next.0 m in
      elim (Bool-cases (can_merge_backend p.primary alt)) [
        | inr cannot ↦
            Attached-when_matched k ls merged m r ps q (ground (arith, h, p.found, p.differs))
        | inl can ↦ elim (Bool-cases p.test) [
          | inr misses ↦
              Attached-when_matched k ls merged m r ps q
                (ground (arith, h, p.found, p.differs, p.tested))
          | inl hits ↦
              let steps =
                put-Step l.backend p.primary next.0 m p.found (merge-IsGrown p.primary alt can) in
              Attached-when_matched k ls next.1 m' r (AllPass-Step wanted alt m m' ls steps ps)
                (Match-Step wanted alt k m m' ls steps q)
                (ground (arith, h, p.found, p.differs, p.tested))
        ]
      ]

  -- If every location has an upstream whose name is not the alternative's, the test of no location
  -- panics, and the loop can merge at one of them, then the loop returns, the upstream of that
  -- location has the alternative, and the upstream of the alternative is not removed.
  pub canary_is_attached :
      (ls : List Location) (m : Map Backend) (k : String)
      → AllPass wanted alt m ls
      → Some (Matches wanted alt k m) ls
      → (m' : Map Backend) × ((merge_and_settle wanted alt ls m ≡ some m')
          × (((v : Backend) × ((get k m' ≡ some v)
                  × (contains (elems v.alternative_backends) alt.name ≡ true)))
              × ((a : Backend)
                  → get alt.name m ≡ some a
                  → (b : Backend) × ((get alt.name m' ≡ some b) × IsGrown a b))))
  unfolding merge_and_settle settle
  canary_is_attached ls m k ps q =
      let run = merge_locations-Runs wanted alt ls false m ps in
      let attached = Attached-when_matched k ls false m run.0 ps q run.1.0 in
      (
        run.0.upstreams,
        (
          ground (arith, run.1.0, attached.0, run.1.1.0),
          (
            attached.1,
            λ a found.
                Step-after (get alt.name m) (get alt.name run.0.upstreams) a
                  (merge_locations-Step wanted alt ls false m run.0 run.1.0 alt.name) found,
          ),
        ),
      )
