-- ===== src/Template/CustomErrors/Exact.antt =====
-- The locations for custom errors hold the codes that the locations ask for, each once.
use ingress_nginx.Prelude.{
  ℤ, ltb_ℤ, int_eq, pos, negsuc, Bool, true, false, ◌||◌, ◌&&◌, List, [], ◌∷◌, String, ◌==◌,
  string_eq, ◌≡◌, ◌≢◌, refl, sym, ◌∙◌, arith, All, Bool-cases, inl, inr, eq-of-test, ne-of-test, ap,
  subst,
}
use ingress_nginx.Maps.{Map, get, keys, contains, get-of-missing, HasUniqueKeys}
use ingress_nginx.Sorting.{insert_sorted, slice_stable, text_less}
use ingress_nginx.Sorting.Laws.{
  Pairs, Pairs-map, IsStrictWeak, slice_stable-Stable, slice_stable-All, text_less-IsStrictWeak,
  Stable,
}
use ingress_nginx.Status.Order.{text_less-alike}
use ingress_nginx.Types.Location.{Location}
use ingress_nginx.Template.CustomErrors.{
  ErrorLocation, has_code, collect_locations, sort_codes, error_locations, by_name,
  build_custom_error_locations_per_server,
}
use ingress_nginx.Template.CustomErrors.Codes.{
  held, held-of-missing, asked, AreDistinct, AreAllDistinct, held-collect_locations,
  collect_locations-AreAllDistinct, collect_locations-HasUniqueKeys,
}

-- Whether an error location of the upstream has the code.
unfoldable pub declared : List ErrorLocation → String → ℤ → Bool
unfolding has_code
declared [] k c = false
declared (e ∷ es) k c = (e.upstream_name == k && has_code e.codes c) || declared es k c

less-IsStrictWeak : IsStrictWeak ltb_ℤ
less-IsStrictWeak = record {
  asymmetric = λ a b h. ground (arith, h);
  passes = λ a b c h k. ground (arith, h, k);
}

less-alike : (a b : ℤ) → ltb_ℤ a b ≡ false → ltb_ℤ b a ≡ false → a ≡ b
less-alike (pos m) (pos n) h k = ap pos (ground (arith, h, k))
less-alike (pos m) (negsuc n) h k = ground (arith, h, k)
less-alike (negsuc m) (pos n) h k = ground (arith, h, k)
less-alike (negsuc m) (negsuc n) h k = ap negsuc (ground (arith, h, k))

has_code-insert_sorted :
    (d : ℤ) (ds : List ℤ) (c : ℤ)
    → has_code (insert_sorted ltb_ℤ d ds) c ≡ (d == c || has_code ds c)
unfolding has_code insert_sorted
has_code-insert_sorted d [] c = refl
has_code-insert_sorted d (e ∷ ds) c = elim (Bool-cases (ltb_ℤ e d)) [
  | inl later ↦ ground (arith, later, has_code-insert_sorted d ds c)
  | inr here ↦ ground (arith, here)
]

has_code-sort_codes : (ds : List ℤ) (c : ℤ) → has_code (sort_codes ds) c ≡ has_code ds c
unfolding has_code sort_codes slice_stable
has_code-sort_codes [] c = refl
has_code-sort_codes (d ∷ ds) c =
    ground (arith, has_code-insert_sorted d (sort_codes ds) c, has_code-sort_codes ds c)

declared-insert_sorted :
    (e : ErrorLocation) (es : List ErrorLocation) (k : String) (c : ℤ)
    → declared (insert_sorted by_name e es) k c
      ≡ ((e.upstream_name == k && has_code e.codes c) || declared es k c)
unfolding declared insert_sorted
declared-insert_sorted e [] k c = refl
declared-insert_sorted e (f ∷ es) k c = elim (Bool-cases (by_name f e)) [
  | inl later ↦ ground (arith, later, declared-insert_sorted e es k c)
  | inr here ↦ ground (arith, here)
]

declared-slice_stable :
    (es : List ErrorLocation) (k : String) (c : ℤ)
    → declared (slice_stable by_name es) k c ≡ declared es k c
unfolding declared slice_stable
declared-slice_stable [] k c = refl
declared-slice_stable (e ∷ es) k c =
    ground
      (arith, declared-insert_sorted e (slice_stable by_name es) k c, declared-slice_stable es k c)

declared-error_locations :
    (m : Map (List ℤ)) (k : String) (c : ℤ)
    → HasUniqueKeys m
    → declared (error_locations m) k c ≡ held m k c
unfolding declared error_locations held get
declared-error_locations [] k c h = refl
declared-error_locations ((j, codes) ∷ m) k c h = elim (Bool-cases (j == k)) [
  | inl same ↦ ground (
    arith,
    same,
    has_code-sort_codes codes c,
    declared-error_locations m k c h.1,
    held-of-missing k m c
        (get-of-missing k m (subst (λ i. contains (keys m) i ≡ false) (eq-of-test j k same) h.0)),
  )
  | inr other ↦ ground (arith, other, declared-error_locations m k c h.1)
]

named_otherwise :
    (j : String) (codes : List ℤ) (m : Map (List ℤ))
    → contains (keys m) j ≡ false
    → All (λ e. j ≢ e.upstream_name) (error_locations m)
unfolding error_locations contains
named_otherwise j codes [] h = tt
named_otherwise j codes ((k, v) ∷ m) h = (
  (λ e. ne-of-test k j (ground (arith, h)) (sym e)),
  named_otherwise j codes m (ground (arith, h)),
)

error_locations-named_apart :
    (m : Map (List ℤ))
    → HasUniqueKeys m
    → Pairs (λ a b. a.upstream_name ≢ b.upstream_name) (error_locations m)
unfolding error_locations
error_locations-named_apart [] h = tt
error_locations-named_apart ((j, codes) ∷ m) h =
    (named_otherwise j codes m h.0, error_locations-named_apart m h.1)

-- The codes go up.
abbrev pub AreAscending : ErrorLocation → Type 0
AreAscending e = Pairs (λ c d. ltb_ℤ c d ≡ true) e.codes

less-of_Stable : (a b : ℤ) → Stable ltb_ℤ (λ c d. c ≢ d) a b → ltb_ℤ a b ≡ true
less-of_Stable a b h = elim (Bool-cases (ltb_ℤ a b)) [
  | inl less ↦ less
  | inr alike ↦ absurd (h.1 alike (less-alike a b alike h.0))
]

sort_codes-ascend : (ds : List ℤ) → AreDistinct ds → Pairs (λ c d. ltb_ℤ c d ≡ true) (sort_codes ds)
unfolding sort_codes
sort_codes-ascend ds h =
    Pairs-map (Stable ltb_ℤ (λ c d. c ≢ d)) (λ c d. ltb_ℤ c d ≡ true) (slice_stable ltb_ℤ ds)
      less-of_Stable (slice_stable-Stable ltb_ℤ less-IsStrictWeak (λ c d. c ≢ d) ds h)

error_locations-AreAscending :
    (m : Map (List ℤ)) → AreAllDistinct m → All AreAscending (error_locations m)
unfolding error_locations
error_locations-AreAscending [] h = tt
error_locations-AreAscending ((j, codes) ∷ m) h =
    (sort_codes-ascend codes h.0, error_locations-AreAscending m h.1)

by_name-IsStrictWeak : IsStrictWeak by_name
unfolding by_name
by_name-IsStrictWeak = record {
  asymmetric = λ a b. text_less-IsStrictWeak.asymmetric a.upstream_name b.upstream_name;
  passes = λ a b c. text_less-IsStrictWeak.passes a.upstream_name b.upstream_name c.upstream_name;
}

before-of_Stable :
    (a b : ErrorLocation)
    → Stable by_name (λ a b. a.upstream_name ≢ b.upstream_name) a b
    → by_name a b ≡ true
unfolding by_name
before-of_Stable a b h = elim (Bool-cases (text_less a.upstream_name b.upstream_name)) [
  | inl less ↦ less
  | inr alike ↦ absurd (h.1 alike (text_less-alike a.upstream_name b.upstream_name alike h.0))
]

-- The names go up, and the codes of each, so that none stands twice; the codes are those that the
-- locations have.
pub record IsErrorTable (locations : List Location) (es : List ErrorLocation) : Type 0 where
  pub exact :
      (upstream : String) (code : ℤ) → declared es upstream code ≡ asked locations upstream code
  pub names : Pairs (λ a b. text_less a.upstream_name b.upstream_name ≡ true) es
  pub codes : All AreAscending es

-- In the result of buildCustomErrorLocationsPerServer the upstream names are strictly ascending, so are the
-- codes of each error location, and a code stands under an upstream just if some location with that default
-- backend upstream has the code among its custom HTTP errors.
pub custom_errors_exact :
    (locations : List Location)
    → IsErrorTable locations (build_custom_error_locations_per_server locations)
unfolding build_custom_error_locations_per_server by_name asked held
custom_errors_exact locations =
    let m = collect_locations locations [] in
    let unique = collect_locations-HasUniqueKeys locations [] tt in
    record {
      exact = λ k c.
          declared-slice_stable (error_locations m) k c
          ∙ (declared-error_locations m k c unique ∙ held-collect_locations locations [] k c);
      names =
          Pairs-map (Stable by_name (λ a b. a.upstream_name ≢ b.upstream_name)) _
            (slice_stable by_name (error_locations m)) before-of_Stable
            (slice_stable-Stable by_name by_name-IsStrictWeak
              (λ a b. a.upstream_name ≢ b.upstream_name) (error_locations m)
              (error_locations-named_apart m unique));
      codes =
          slice_stable-All by_name AreAscending (error_locations m)
            (error_locations-AreAscending m (collect_locations-AreAllDistinct locations [] tt));
    }
