-- ===== src/Maps.antt =====
-- The maps of Go with texts as keys: a list of entries in the order of some iteration.
pub mod All
use ingress_nginx.Prelude.{
  Bool, true, false, ◌||◌, Option, none, some, List, [], ◌∷◌, ◌++◌, ◌≡◌, refl, String, ◌==◌,
  string_eq, arith, if◌then◌else◌, eq-of-test, test-of-eq, inl, inr, Bool-cases,
}

abbrev pub Map {ℓ} : Type ℓ → Type ℓ
Map V = List (String × V)

-- Whether a slice of texts holds `x`.
unfoldable pub contains : List String → String → Bool
contains [] x = false
contains (y ∷ ys) x = y == x || contains ys x

module _ {ℓ} {V : Type ℓ} where
  -- v, ok := m[k]
  unfoldable pub get : String → Map V → Option V
  get k [] = none
  get k ((j, v) ∷ m) = if j == k then some v else get k m

  -- m[k] = v
  unfoldable pub put : String → V → Map V → Map V
  put k v [] = (k, v) ∷ []
  put k v ((j, w) ∷ m) = if j == k then (k, v) ∷ m else (j, w) ∷ put k v m

  -- delete(m, k)
  unfoldable pub remove : String → Map V → Map V
  remove k [] = []
  remove k ((j, v) ∷ m) = if j == k then remove k m else (j, v) ∷ remove k m

  -- _, ok := m[k]
  abbrev pub member : String → Map V → Bool
  member k m = elim (get k m) [ none ↦ false | some v ↦ true ]

  abbrev pub keys : Map V → List String
  keys [] = []
  keys ((k, v) ∷ m) = k ∷ keys m

  -- A key stands in at most one entry.
  abbrev pub HasUniqueKeys : Map V → Type 0
  HasUniqueKeys [] = Unit
  HasUniqueKeys ((k, v) ∷ m) = (contains (keys m) k ≡ false) × HasUniqueKeys m

  pub get-put :
      (k j : String) (v : V) (m : Map V) → get j (put k v m) ≡ (if k == j then some v else get j m)
  unfolding get put
  get-put k j v [] = refl
  get-put k j v ((i, w) ∷ m) = ground (
    arith,
    eq-of-test i k,
    eq-of-test i j,
    eq-of-test k j,
    test-of-eq i j,
    test-of-eq k j,
    test-of-eq i k,
    get-put k j v m,
  )

  pub get-remove :
      (k j : String) (m : Map V) → get j (remove k m) ≡ (if k == j then none else get j m)
  unfolding get remove
  get-remove k j [] = ground arith
  get-remove k j ((i, w) ∷ m) = ground (
    arith,
    eq-of-test i k,
    eq-of-test i j,
    eq-of-test k j,
    test-of-eq i j,
    test-of-eq k j,
    test-of-eq i k,
    get-remove k j m,
  )

  pub get-of-missing : (k : String) (m : Map V) → contains (keys m) k ≡ false → get k m ≡ none
  unfolding get contains
  get-of-missing k [] h = refl
  get-of-missing k ((j, v) ∷ m) h = ground (arith, get-of-missing k m)

  keys-put :
      (k j : String) (v : V) (m : Map V)
      → contains (keys (put k v m)) j ≡ (k == j || contains (keys m) j)
  unfolding contains put
  keys-put k j v [] = refl
  keys-put k j v ((i, w) ∷ m) =
      ground (arith, eq-of-test i k, eq-of-test i j, test-of-eq i j, keys-put k j v m)

  pub put-HasUniqueKeys :
      (k : String) (v : V) (m : Map V) → HasUniqueKeys m → HasUniqueKeys (put k v m)
  unfolding put contains
  put-HasUniqueKeys k v [] h = (refl, tt)
  put-HasUniqueKeys k v ((i, w) ∷ m) (a, h) = elim (Bool-cases (i == k)) [
    | inl same ↦ rw (same, put) (rw (← eq-of-test i k same) (a, h))
    | inr other ↦
        rw (other, put)
          (rw (keys-put k i v m)
            (ground (arith, test-of-eq i k, eq-of-test k i), put-HasUniqueKeys k v m h))
  ]

pub ruleset map_laws = (get-put, get-remove)

pub contains-nil : (x : String) → contains [] x ≡ false
unfolding contains
contains-nil x = refl

pub contains-cons :
    (y : String) (ys : List String) (x : String) → contains (y ∷ ys) x ≡ (y == x || contains ys x)
unfolding contains
contains-cons y ys x = refl

pub contains-append :
    (xs ys : List String) (x : String) → contains (xs ++ ys) x ≡ (contains xs x || contains ys x)
unfolding contains
contains-append [] ys x = refl
contains-append (z ∷ xs) ys x = ground (arith, contains-append xs ys x)
