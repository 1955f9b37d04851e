-- ===== src/Controller/Locations/Exact.antt =====
-- The exact locations of a server stay distinct, so that NGINX accepts them.
use ingress_nginx.Prelude.{
  true, false, some, List, [], ◌∷◌, ◌++◌, String, string_eq, if◌then◌else◌, ◌≡◌, refl, ◌⊎◌, inl,
  inr, arith, Bool-cases, eq-of-test, eq_refl,
}
use ingress_nginx.Maps.{contains, contains-append}
use ingress_nginx.Types.Location.{Location}
use ingress_nginx.Controller.Endpoints.Laws.{NoRepeats}
use ingress_nginx.Controller.Locations.{
  is_exact, is_prefix, exact_paths, update_location, update_locations, update_server_locations,
  all_typed,
}

-- The paths of the locations of type Prefix.
unfoldable pub prefix_paths : List Location → List String
prefix_paths [] = []
prefix_paths (l ∷ ls) = if is_prefix l.path_type then l.path ∷ prefix_paths ls else prefix_paths ls

exact_paths-append :
    (ls ms : List Location) → exact_paths (ls ++ ms) ≡ exact_paths ls ++ exact_paths ms
unfolding exact_paths
exact_paths-append [] ms = refl
exact_paths-append (l ∷ ls) ms = ground (arith, exact_paths-append ls ms)

-- The exact locations that one location becomes: itself, or the copy of a prefix location.
exact_paths-update_location :
    (ex : List String) (l : Location)
    → (exact_paths (update_location ex l) ≡ [])
      ⊎ ((exact_paths (update_location ex l) ≡ l.path ∷ [])
          × (((is_prefix l.path_type ≡ true) × (contains ex l.path ≡ false))
              ⊎ (is_exact l.path_type ≡ true)))
unfolding exact_paths update_location
exact_paths-update_location ex l = ground arith

-- An exact location of the result was one before, or is the copy of a prefix location.
exact_paths-update_locations :
    (ex : List String) (ls : List Location) (x : String)
    → contains (exact_paths (update_locations ex ls)) x ≡ true
    → (contains (exact_paths ls) x ≡ true)
      ⊎ ((contains (prefix_paths ls) x ≡ true) × (contains ex x ≡ false))
unfolding update_locations exact_paths contains prefix_paths
exact_paths-update_locations ex [] x h = inl h
exact_paths-update_locations ex (l ∷ ls) x h =
    let rest = exact_paths-update_locations ex ls x in
    let split =
      contains-append (exact_paths (update_location ex l)) (exact_paths (update_locations ex ls))
        x in
    let h' = rw (exact_paths-append (update_location ex l) (update_locations ex ls)) at h in
    elim (exact_paths-update_location ex l) [
      | inl empty ↦ ground (arith, rest, split, h', rw empty at split)
      | inr one ↦ ground (arith, rest, h', rw one.0 at split, eq-of-test l.path x)
    ]

-- The step of the induction below.
exact-distinct :
    (ex : List String) (ls : List Location)
    → ((x : String) → contains (exact_paths ls) x ≡ true → contains ex x ≡ true)
    → NoRepeats (exact_paths ls)
    → NoRepeats (prefix_paths ls)
    → NoRepeats (exact_paths (update_locations ex ls))
unfolding update_locations exact_paths contains prefix_paths
exact-distinct ex [] sub e p = e
exact-distinct ex (l ∷ ls) sub e p =
    let whole = exact_paths-append (update_location ex l) (update_locations ex ls) in
    let rest = exact-distinct ex ls (λ x h. sub x (ground arith)) (ground arith) (ground arith) in
    let origin = exact_paths-update_locations ex ls l.path in
    elim (exact_paths-update_location ex l) [
      | inl empty ↦ rw whole (rw empty rest)
      | inr one ↦ rw whole (rw one.0 (ground (arith, eq_refl l.path, sub l.path, origin), rest))
    ]

-- If the exact paths of the locations are distinct and their prefix paths are distinct, the exact
-- paths of the locations that `updateServerLocations` returns are distinct.
pub exact_locations_distinct :
    (ls ms : List Location)
    → NoRepeats (exact_paths ls)
    → NoRepeats (prefix_paths ls)
    → update_server_locations ls ≡ some ms
    → NoRepeats (exact_paths ms)
unfolding update_server_locations
exact_locations_distinct ls ms e p h = elim (Bool-cases (all_typed ls)) [
  | inl typed ↦ ground (arith, exact-distinct (exact_paths ls) ls (λ x h. h) e p)
  | inr untyped ↦ ground arith
]
