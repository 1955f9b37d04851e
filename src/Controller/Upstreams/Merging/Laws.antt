-- ===== src/Controller/Upstreams/Merging/Laws.antt =====
-- Merging changes nothing of an upstream but its alternative backends, which stay well formed.
use ingress_nginx.Prelude.{
  Bool, true, false, ◌||◌, Option, none, some, List, [], ◌∷◌, ◌++◌, elems, String, ◌==◌, string_eq,
  ◌≡◌, refl, ◌∙◌, inl, inr, arith, Bool-cases, Option-cases, eq-of-test, test-of-eq,
}
use ingress_nginx.Maps.{
  Map, get, put, contains, contains-append, contains-cons, contains-nil, get-put,
}
use ingress_nginx.Types.Backend.{Backend}
use ingress_nginx.Types.Location.{Location}
use ingress_nginx.Controller.Endpoints.Laws.{NoRepeats, NoRepeats-concat}
use ingress_nginx.Controller.Upstreams.Merging.{
  Merge, can_merge_backend, merge_alternative_backend, merge_locations,
}

-- The alternatives are distinct, the upstream is not its own alternative, and an upstream without
-- servers of its own has none.
pub record IsSound (u : Backend) : Type 0 where
  pub distinct : NoRepeats (elems u.alternative_backends)
  pub others : contains (elems u.alternative_backends) u.name ≡ false
  pub primary : u.no_server ≡ true → elems u.alternative_backends ≡ []

-- An upstream without its alternatives.
abbrev pub forget : Backend → Backend
forget u = record u { alternative_backends = none }

-- What merging may do to an upstream.
pub record IsGrown (u v : Backend) : Type 0 where
  pub same : forget u ≡ forget v
  pub more :
      (x : String)
      → contains (elems u.alternative_backends) x ≡ true
      → contains (elems v.alternative_backends) x ≡ true
  pub sound : IsSound u → IsSound v

pub IsGrown-refl : (u : Backend) → IsGrown u u
IsGrown-refl u = record { same = refl; more = λ x h. h; sound = λ s. s }

pub IsGrown-trans : (u v w : Backend) → IsGrown u v → IsGrown v w → IsGrown u w
IsGrown-trans u v w g h = record {
  same = g.same ∙ h.same;
  more = λ x e. h.more x (g.more x e);
  sound = λ s. h.sound (g.sound s);
}

-- The alternative that `mergeAlternativeBackend` appends.
append-IsGrown :
    (u : Backend) (x : String)
    → u.no_server ≡ false
    → u.name == x ≡ false
    → contains (elems u.alternative_backends) x ≡ false
    → IsGrown u
        (record u { alternative_backends = some (elems u.alternative_backends ++ (x ∷ [])) })
append-IsGrown u x own other new =
    let grown : (y : String)
        → contains (elems u.alternative_backends ++ (x ∷ [])) y
          ≡ (contains (elems u.alternative_backends) y || x == y) =
      λ y.
        contains-append (elems u.alternative_backends) (x ∷ []) y
        ∙ ground (arith, contains-cons x [] y, contains-nil y) in
    record {
      same = refl;
      more = λ y h. ground (arith, grown y);
      sound = λ s. record {
        distinct = NoRepeats-concat (elems u.alternative_backends) x s.distinct new;
        others = ground (arith, grown u.name, s.others, eq-of-test x u.name, test-of-eq u.name x);
        primary = λ h. ground (arith, own, h);
      };
    }

pub merge-IsGrown :
    (pri alt : Backend)
    → can_merge_backend pri alt ≡ true
    → IsGrown pri (merge_alternative_backend pri alt).0
unfolding can_merge_backend merge_alternative_backend
merge-IsGrown pri alt can =
    let own : pri.no_server ≡ false = ground arith in
    elim (Bool-cases (contains (elems pri.alternative_backends) alt.name)) [
      | inl old ↦
          let kept : (merge_alternative_backend pri alt).0 ≡ pri = ground arith in
          rw kept (IsGrown-refl pri)
      | inr new ↦
          let added : (merge_alternative_backend pri alt).0 ≡ record pri {
            alternative_backends = some (elems pri.alternative_backends ++ (alt.name ∷ []));
          } =
            ground arith in
          rw added (append-IsGrown pri alt.name own (ground arith) new)
    ]

-- The upstream under a key before and after: the same key, the upstream grown.
abbrev pub Step : Option Backend → Option Backend → Type 0
Step none none = Unit
Step (some u) (some v) = IsGrown u v
Step none (some v) = ⊥
Step (some u) none = ⊥

pub Step-refl : (o : Option Backend) → Step o o
Step-refl none = tt
Step-refl (some u) = IsGrown-refl u

pub Step-trans : (o p q : Option Backend) → Step o p → Step p q → Step o q
Step-trans none none none g h = tt
Step-trans (some u) (some v) (some w) g h = IsGrown-trans u v w g h
Step-trans none none (some w) g h = h
Step-trans none (some v) q g h = absurd g
Step-trans (some u) none q g h = absurd g
Step-trans (some u) (some v) none g h = h

pub put-Step :
    (k : String) (u v : Backend) (m : Map Backend)
    → get k m ≡ some u
    → IsGrown u v
    → (j : String) → Step (get j m) (get j (put k v m))
put-Step k u v m found g j = rw (get-put k j v m) (elim (Bool-cases (k == j)) [
  | inl same ↦ rw same (rw (← eq-of-test k j same) (rw found g))
  | inr other ↦ rw other (Step-refl (get j m))
])

pub merge_locations-Step :
    (wanted : Location → Option Bool) (alt : Backend) (ls : List Location) (merged : Bool)
    (m : Map Backend) (r : Merge)
    → merge_locations wanted alt ls merged m ≡ some r
    → (j : String) → Step (get j m) (get j r.upstreams)
unfolding merge_locations
merge_locations-Step wanted alt [] merged m r h j =
    let end : m ≡ r.upstreams = ground arith in rw (← end) (Step-refl (get j m))
merge_locations-Step wanted alt (l ∷ ls) merged m r h j = elim (Option-cases (get l.backend m)) [
  | inl missing ↦ ground arith
  | inr (pri, found) ↦ elim (Bool-cases (alt.name == pri.name)) [
    | inl equal ↦ let end : m ≡ r.upstreams = ground arith in rw (← end) (Step-refl (get j m))
    | inr differs ↦ elim (Bool-cases (can_merge_backend pri alt)) [
      | inr cannot ↦ merge_locations-Step wanted alt ls merged m r (ground arith) j
      | inl can ↦ elim (Option-cases (wanted l)) [
        | inl panics ↦ ground arith
        | inr (false, skipped) ↦ merge_locations-Step wanted alt ls merged m r (ground arith) j
        | inr (true, hit) ↦
            let next = merge_alternative_backend pri alt in
            let m' = put l.backend next.0 m in
            Step-trans (get j m) (get j m') (get j r.upstreams)
              (put-Step l.backend pri next.0 m found (merge-IsGrown pri alt can) j)
              (merge_locations-Step wanted alt ls next.1 m' r (ground arith) j)
      ]
    ]
  ]
]
