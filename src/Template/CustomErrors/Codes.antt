-- ===== src/Template/CustomErrors/Codes.antt =====
-- The codes that the map of the loops holds for an upstream.
use ingress_nginx.Prelude.{
  ℤ, int_eq, Bool, false, ◌||◌, ◌&&◌, none, some, List, [], ◌∷◌, elems, String, ◌==◌, string_eq,
  ◌≡◌, ◌≢◌, refl, sym, arith, All, if◌then◌else◌, Bool-cases, Option-cases, ap, inl, inr,
  eq-of-test, ne-of-test,
}
use ingress_nginx.Maps.{Map, get, put, get-put, put-HasUniqueKeys, HasUniqueKeys}
use ingress_nginx.Sorting.Laws.{Pairs}
use ingress_nginx.Types.Location.{Location}
use ingress_nginx.Template.CustomErrors.{
  has_code, add_codes, deduped_codes, collect_location, collect_locations,
}

-- Whether the map has the code for the upstream.
unfoldable pub held : Map (List ℤ) → String → ℤ → Bool
unfolding get has_code
held m k c = elim (get k m) [ none ↦ false | some codes ↦ has_code codes c ]

-- Whether a location with the upstream for errors has the code.
unfoldable pub asked : List Location → String → ℤ → Bool
unfolding has_code
asked [] k c = false
asked (l ∷ ls) k c =
    (l.default_backend_upstream_name == k && has_code (elems l.custom_http_errors) c)
    || asked ls k c

has_code-add_codes :
    (cs deduped : List ℤ) (c : ℤ)
    → has_code (add_codes cs deduped) c ≡ (has_code deduped c || has_code cs c)
unfolding has_code add_codes
has_code-add_codes [] deduped c = ground arith
has_code-add_codes (d ∷ cs) deduped c = elim (Bool-cases (has_code deduped d)) [
  | inl old ↦ ground (arith, old, has_code-add_codes cs deduped c, eq-of-test d c)
  | inr new ↦ ground (arith, new, has_code-add_codes cs (d ∷ deduped) c)
]

has_code-deduped_codes :
    (k : String) (m : Map (List ℤ)) (c : ℤ) → has_code (deduped_codes k m) c ≡ held m k c
unfolding held deduped_codes has_code
has_code-deduped_codes k m c = elim (Option-cases (get k m)) [
  | inl missing ↦ ground (arith, missing)
  | inr (codes, found) ↦ ground (arith, found)
]

pub held-of-missing : (k : String) (m : Map (List ℤ)) (c : ℤ) → get k m ≡ none → held m k c ≡ false
unfolding held
held-of-missing k m c h = rw (held, h) refl

held-put :
    (j k : String) (codes : List ℤ) (m : Map (List ℤ)) (c : ℤ)
    → held (put j codes m) k c ≡ (if j == k then has_code codes c else held m k c)
unfolding held
held-put j k codes m c = elim (Bool-cases (j == k)) [
  | inl same ↦ rw (held, get-put j k codes m, same) refl
  | inr other ↦ rw (held, get-put j k codes m, other) refl
]

held-collect_location :
    (l : Location) (m : Map (List ℤ)) (k : String) (c : ℤ)
    → held (collect_location l m) k c ≡ (
        held m k c
        || (l.default_backend_upstream_name == k && has_code (elems l.custom_http_errors) c))
unfolding collect_location
held-collect_location l m k c =
    let name = l.default_backend_upstream_name in
    let codes = elems l.custom_http_errors in
    elim (Bool-cases (name == k)) [
      | inl same ↦ ground (
        arith,
        same,
        held-put name k (add_codes codes (deduped_codes name m)) m c,
        has_code-add_codes codes (deduped_codes name m) c,
        has_code-deduped_codes name m c,
        ap (λ j. held m j c) (eq-of-test name k same),
      )
      | inr other ↦
          ground (arith, other, held-put name k (add_codes codes (deduped_codes name m)) m c)
    ]

pub held-collect_locations :
    (ls : List Location) (m : Map (List ℤ)) (k : String) (c : ℤ)
    → held (collect_locations ls m) k c ≡ (held m k c || asked ls k c)
unfolding asked collect_locations
held-collect_locations [] m k c = ground arith
held-collect_locations (l ∷ ls) m k c =
    ground
      (arith, held-collect_locations ls (collect_location l m) k c, held-collect_location l m k c)

-- No code is held twice.
abbrev pub AreDistinct : List ℤ → Type 0
AreDistinct = Pairs (λ a b. a ≢ b)

absent-All : (c : ℤ) (ds : List ℤ) → has_code ds c ≡ false → All (λ d. c ≢ d) ds
unfolding has_code
absent-All c [] h = tt
absent-All c (d ∷ ds) h =
    ((λ e. ne-of-test d c (ground (arith, h)) (sym e)), absent-All c ds (ground (arith, h)))

add_codes-AreDistinct :
    (cs deduped : List ℤ) → AreDistinct deduped → AreDistinct (add_codes cs deduped)
unfolding add_codes
add_codes-AreDistinct [] deduped h = h
add_codes-AreDistinct (c ∷ cs) deduped h = elim (Bool-cases (has_code deduped c)) [
  | inl old ↦ rw old (add_codes-AreDistinct cs deduped h)
  | inr new ↦ rw new (add_codes-AreDistinct cs (c ∷ deduped) (absent-All c deduped new, h))
]

-- No code is held twice for an upstream.
abbrev pub AreAllDistinct : Map (List ℤ) → Type 0
AreAllDistinct = All (λ e. AreDistinct e.1)

put-AreAllDistinct :
    (k : String) (codes : List ℤ) (m : Map (List ℤ))
    → AreDistinct codes
    → AreAllDistinct m
    → AreAllDistinct (put k codes m)
unfolding put
put-AreAllDistinct k codes [] d h = (d, tt)
put-AreAllDistinct k codes ((j, v) ∷ m) d h = elim (Bool-cases (j == k)) [
  | inl same ↦ rw same (d, h.1)
  | inr other ↦ rw other (h.0, put-AreAllDistinct k codes m d h.1)
]

deduped_codes-AreDistinct :
    (k : String) (m : Map (List ℤ)) → AreAllDistinct m → AreDistinct (deduped_codes k m)
unfolding deduped_codes get
deduped_codes-AreDistinct k [] h = tt
deduped_codes-AreDistinct k ((j, v) ∷ m) h = elim (Bool-cases (j == k)) [
  | inl same ↦ rw (deduped_codes, same) h.0
  | inr other ↦ rw (deduped_codes, other) (deduped_codes-AreDistinct k m h.1)
]

pub collect_locations-AreAllDistinct :
    (ls : List Location) (m : Map (List ℤ))
    → AreAllDistinct m
    → AreAllDistinct (collect_locations ls m)
unfolding collect_locations collect_location
collect_locations-AreAllDistinct [] m h = h
collect_locations-AreAllDistinct (l ∷ ls) m h =
    let name = l.default_backend_upstream_name in
    let codes = elems l.custom_http_errors in
    collect_locations-AreAllDistinct ls (collect_location l m) (
      put-AreAllDistinct name (add_codes codes (deduped_codes name m)) m
        (add_codes-AreDistinct codes (deduped_codes name m) (deduped_codes-AreDistinct name m h)) h)

pub collect_locations-HasUniqueKeys :
    (ls : List Location) (m : Map (List ℤ))
    → HasUniqueKeys m
    → HasUniqueKeys (collect_locations ls m)
unfolding collect_locations collect_location
collect_locations-HasUniqueKeys [] m h = h
collect_locations-HasUniqueKeys (l ∷ ls) m h =
    collect_locations-HasUniqueKeys ls (collect_location l m) (put-HasUniqueKeys _ _ m h)
