-- ===== src/Controller/Placing/Laws.antt =====
-- The path of an ingress has its location, and no location of another ingress is lost.
use ingress_nginx.Prelude.{
  Bool, true, false, Option, none, some, List, [], ◌∷◌, ◌++◌, String, ◌==◌, string_eq, ◌≡◌, refl,
  ap, subst, arith, inl, inr, Bool-cases, Option-cases, eq-of-test, All, Some, Some-append_left,
  Some-append_right,
}
use ingress_nginx.Api.{HttpPath, PathType, exact, prefix, implementation_specific}
use ingress_nginx.Maps.{contains}
use ingress_nginx.Types.Backend.{Backend}
use ingress_nginx.Types.Ingress.{Ingress}
use ingress_nginx.Types.Location.{Location}
use ingress_nginx.Controller.Annotated.{location_apply_annotations}
use ingress_nginx.Controller.Endpoints.Laws.{NoRepeats, NoRepeats-concat}
use ingress_nginx.Controller.Placing.{
  nginx_path, types_equal, replaced, new_location, Placed, place_existing, place,
}

types-eq : (o u : Option PathType) → types_equal o u ≡ true → o ≡ u
types-eq none none h = refl
types-eq none (some u) h = cc
types-eq (some t) none h = cc
types-eq (some exact) (some exact) h = refl
types-eq (some exact) (some prefix) h = cc
types-eq (some exact) (some implementation_specific) h = cc
types-eq (some prefix) (some exact) h = cc
types-eq (some prefix) (some prefix) h = refl
types-eq (some prefix) (some implementation_specific) h = cc
types-eq (some implementation_specific) (some exact) h = cc
types-eq (some implementation_specific) (some prefix) h = cc
types-eq (some implementation_specific) (some implementation_specific) h = refl

clash : {b : Bool} → b ≡ true → b ≡ false → ⊥
clash h k = cc

none≢some : {r : Placed} → none ≡ some r → ⊥
none≢some h = cc

some-inj : {q r : Placed} → some q ≡ some r → q ≡ r
some-inj h = cc

-- The location is that of the path and its type.
abbrev pub IsFor : HttpPath → Location → Type 0
IsFor p l = (l.path ≡ nginx_path p) × (l.path_type ≡ p.path_type)

abbrev pub paths : List Location → List String
paths [] = []
paths (l ∷ ls) = l.path ∷ paths ls

module _ (ing : Ingress) (p : HttpPath) (ups : Backend) where
  replaced-path : (l : Location) → (replaced ing ups l).path ≡ l.path
  unfolding replaced location_apply_annotations
  replaced-path l = refl

  replaced-type : (l : Location) → (replaced ing ups l).path_type ≡ l.path_type
  unfolding replaced location_apply_annotations
  replaced-type l = refl

  new_location-IsFor : IsFor p (new_location ing p ups)
  unfolding new_location location_apply_annotations
  new_location-IsFor = (refl, refl)

  -- What the loop does to the list if it finds the location: it keeps the others.
  record IsPlacement (ls : List Location) (r : Placed) : Type 0 where
    pub found : Some (IsFor p) r.locations
    pub kept :
        (l : Location)
        → l.is_def_backend ≡ false
        → Some (λ m. l ≡ m) ls
        → Some (λ m. l ≡ m) r.locations
    pub same_paths : paths r.locations ≡ paths ls
    pub lasting : (q : HttpPath) → Some (IsFor q) ls → Some (IsFor q) r.locations

  head-IsPlacement :
      (l : Location) (ls : List Location) (w : Bool)
      → IsFor p l
      → IsPlacement (l ∷ ls) (record { locations = l ∷ ls; from_to_www = w })
  head-IsPlacement l ls w here = record {
    found = inl here;
    kept = λ m d h. h;
    same_paths = refl;
    lasting = λ q h. h;
  }

  replaced-IsPlacement :
      (l : Location) (ls : List Location) (w : Bool)
      → IsFor p l
      → l.is_def_backend ≡ true
      → IsPlacement (l ∷ ls) (record { locations = replaced ing ups l ∷ ls; from_to_www = w })
  replaced-IsPlacement l ls w here default = record {
    found = inl (rw (replaced-path l) here.0, rw (replaced-type l) here.1);
    kept = λ m d h. elim h [
      | inl same ↦ absurd (clash default (rw same at d))
      | inr later ↦ inr later
    ];
    same_paths = rw (replaced-path l) refl;
    lasting = λ q h. elim h [
      | inl at_l ↦ inl (rw (replaced-path l) at_l.0, rw (replaced-type l) at_l.1)
      | inr later ↦ inr later
    ];
  }

  tail-IsPlacement :
      (l : Location) (ls : List Location) (r : Placed)
      → IsPlacement ls r
      → IsPlacement (l ∷ ls) (record r { locations = l ∷ r.locations })
  tail-IsPlacement l ls r i = record {
    found = inr i.found;
    kept = λ m d h. elim h [ inl same ↦ inl same | inr later ↦ inr (i.kept m d later) ];
    same_paths = ap (λ ps. l.path ∷ ps) i.same_paths;
    lasting = λ q h. elim h [ inl at_l ↦ inl at_l | inr later ↦ inr (i.lasting q later) ];
  }

  place_existing-IsPlacement :
      (ls : List Location) (r : Placed) → place_existing ing p ups ls ≡ some r → IsPlacement ls r
  unfolding place_existing
  place_existing-IsPlacement [] r h = cc
  place_existing-IsPlacement (l ∷ ls) r h = elim (Bool-cases (l.path == nginx_path p)) [
    | inr other ↦ elim (Option-cases (place_existing ing p ups ls)) [
      | inl none_there ↦ absurd (none≢some (rw none_there at (rw (other, place_existing) at h)))
      | inr (q, found) ↦
          rw (some-inj (rw found at (rw (other, place_existing) at h))) at
            (tail-IsPlacement l ls q (place_existing-IsPlacement ls q found))
    ]
    | inl here ↦ elim (Bool-cases (types_equal l.path_type p.path_type)) [
      | inr differs ↦ absurd (none≢some (rw differs at (rw (here, place_existing) at h)))
      | inl agrees ↦
          let at_l : IsFor p l =
            (eq-of-test l.path (nginx_path p) here, types-eq l.path_type p.path_type agrees) in
          elim (Bool-cases l.is_def_backend) [
            | inl default ↦
                let taken : Placed = record {
                  locations = replaced ing ups l ∷ ls;
                  from_to_www = (replaced ing ups l).redirect.from_to_www;
                } in
                let step : taken ≡ r = ground (arith, h, here, agrees, default) in
                subst (IsPlacement (l ∷ ls)) step
                  (replaced-IsPlacement l ls taken.from_to_www at_l default)
            | inr own ↦
                let left : Placed = record { locations = l ∷ ls; from_to_www = false } in
                let step : left ≡ r = ground (arith, h, here, agrees, own) in
                subst (IsPlacement (l ∷ ls)) step (head-IsPlacement l ls false at_l)
          ]
    ]
  ]

  place_existing-missing :
      (ls : List Location)
      → All (λ l. l.path ≡ nginx_path p → types_equal l.path_type p.path_type ≡ true) ls
      → place_existing ing p ups ls ≡ none
      → contains (paths ls) (nginx_path p) ≡ false
  unfolding place_existing contains
  place_existing-missing [] a h = refl
  place_existing-missing (l ∷ ls) (a, as') h = elim (Bool-cases (l.path == nginx_path p)) [
    | inl here ↦
        let agrees = a (eq-of-test l.path (nginx_path p) here) in ground (arith, h, here, agrees)
    | inr other ↦ elim (Option-cases (place_existing ing p ups ls)) [
      | inl none_there ↦ ground (arith, other, place_existing-missing ls as' none_there)
      | inr (q, found) ↦ ground (arith, h, other, found)
    ]
  ]

  paths-append : (ls ms : List Location) → paths (ls ++ ms) ≡ paths ls ++ paths ms
  paths-append [] ms = refl
  paths-append (l ∷ ls) ms = ap (λ ps. l.path ∷ ps) (paths-append ls ms)

  -- After the placement, some location has the path and the type of the given one, and every
  -- location that was not of the default backend is still there.
  pub place_serves :
      (ls : List Location)
      → Some (IsFor p) (place ing p ups ls).locations
        × ((l : Location)
            → l.is_def_backend ≡ false
            → Some (λ m. l ≡ m) ls
            → Some (λ m. l ≡ m) (place ing p ups ls).locations)
  unfolding place
  place_serves ls = elim (Option-cases (place_existing ing p ups ls)) [
    | inl missing ↦
        rw (missing, place)
          (
            Some-append_right (IsFor p) ls (new_location ing p ups ∷ []) (inl new_location-IsFor),
            λ l d h. Some-append_left (λ m. l ≡ m) ls (new_location ing p ups ∷ []) h,
          )
    | inr (r, found) ↦
        let i = place_existing-IsPlacement ls r found in rw (found, place) (i.found, i.kept)
  ]

  -- A location for some path stays one for it.
  pub place_lasts :
      (ls : List Location) (q : HttpPath)
      → Some (IsFor q) ls
      → Some (IsFor q) (place ing p ups ls).locations
  unfolding place
  place_lasts ls q h = elim (Option-cases (place_existing ing p ups ls)) [
    | inl missing ↦
        rw (missing, place) (Some-append_left (IsFor q) ls (new_location ing p ups ∷ []) h)
    | inr (r, found) ↦ rw (found, place) ((place_existing-IsPlacement ls r found).lasting q h)
  ]

  -- If the paths of the locations are distinct, and the one with the given path, if any, has the given
  -- type, the paths are distinct after the placement.
  pub place_keeps_distinct :
      (ls : List Location)
      → NoRepeats (paths ls)
      → All (λ l. l.path ≡ nginx_path p → types_equal l.path_type p.path_type ≡ true) ls
      → NoRepeats (paths (place ing p ups ls).locations)
  unfolding place
  place_keeps_distinct ls n a = elim (Option-cases (place_existing ing p ups ls)) [
    | inl missing ↦
        rw (missing, place)
          (rw (paths-append ls (new_location ing p ups ∷ [])) (
            rw new_location-IsFor.0
              (NoRepeats-concat (paths ls) (nginx_path p) n (place_existing-missing ls a missing))))
    | inr (r, found) ↦ rw (found, place) (rw (place_existing-IsPlacement ls r found).same_paths n)
  ]
