-- ===== src/StringSets.antt =====
-- sets.String of k8s.io/apimachinery, which the program takes from outside: its operations, with
-- what their documentation says of them.
use ingress_nginx.Prelude.{
  ℕ, Bool, true, false, not, ◌&&◌, ◌||◌, List, [], ◌∷◌, ◌≡◌, ◌≢◌, refl, String, ◌==◌, string_eq,
  arith, length, Bool-cases, inl, inr, if◌then◌else◌, eq-of-test, test-of-eq, eq_refl,
}
use ingress_nginx.Maps.{contains, contains-nil}

pub record StringSets : Type 1 where
  pub Set : Type 0
  pub empty : Set
  pub insert : String → Set → Set
  pub delete : String → Set → Set
  pub difference : Set → Set → Set
  pub has : Set → String → Bool
  pub len : Set → ℕ
  pub list : Set → List String
  pub has-empty : (a : String) → has empty a ≡ false
  pub has-insert : (a b : String) (s : Set) → has (insert a s) b ≡ (a == b || has s b)
  pub has-delete : (a b : String) (s : Set) → has (delete a s) b ≡ (not (a == b) && has s b)
  pub has-difference :
      (s t : Set) (a : String) → has (difference s t) a ≡ (has s a && not (has t a))
  pub len-zero : (s : Set) → len s ≡ 0 → (a : String) → has s a ≡ false
  pub len-nonzero : (s : Set) → len s ≢ 0 → (a : String) × (has s a ≡ true)
  pub contains-list : (s : Set) (a : String) → contains (list s) a ≡ has s a

-- Sets as lists, which meet the interface.
unfoldable pub add : String → List String → List String
add a s = if contains s a then s else a ∷ s

unfoldable pub drop_all : String → List String → List String
drop_all a [] = []
drop_all a (b ∷ s) = if a == b then drop_all a s else b ∷ drop_all a s

unfoldable pub minus : List String → List String → List String
minus [] t = []
minus (b ∷ s) t = let rest = minus s t in if contains t b then rest else b ∷ rest

pub contains-minus :
    (s t : List String) (a : String) → contains (minus s t) a ≡ (contains s a && not (contains t a))
unfolding minus contains
contains-minus [] t a = refl
contains-minus (b ∷ s) t a = ground (arith, contains-minus s t a, eq-of-test b a)

pub contains-add :
    (a b : String) (s : List String) → contains (add a s) b ≡ (a == b || contains s b)
unfolding add contains
contains-add a b s = elim (Bool-cases (contains s a)) [
  | inl old ↦ elim (Bool-cases (a == b)) [
    | inl same ↦ ground (arith, eq-of-test a b same)
    | inr other ↦ ground arith
  ]
  | inr new ↦ ground arith
]

pub contains-drop_all :
    (a b : String) (s : List String) → contains (drop_all a s) b ≡ (not (a == b) && contains s b)
unfolding drop_all contains
contains-drop_all a b [] = ground arith
contains-drop_all a b (c ∷ s) = ground (
  arith,
  contains-drop_all a b s,
  eq-of-test a c,
  eq-of-test c b,
  test-of-eq a b,
  test-of-eq a c,
  eq-of-test a b,
)

pub length-zero : (s : List String) → length s ≡ 0 → (a : String) → contains s a ≡ false
unfolding contains
length-zero [] h a = refl
length-zero (b ∷ s) h a = absurd (omega arith)

pub length-nonzero : (s : List String) → length s ≢ 0 → (a : String) × (contains s a ≡ true)
unfolding contains
length-nonzero [] h = absurd (h refl)
length-nonzero (b ∷ s) h = (b, ground (arith, eq_refl b))

abbrev pub list_sets : StringSets
list_sets = record {
  Set = List String;
  empty = [];
  insert = add;
  delete = drop_all;
  difference = minus;
  has = contains;
  len = length;
  list = λ s. s;
  has-empty = contains-nil;
  has-insert = contains-add;
  has-delete = contains-drop_all;
  has-difference = contains-minus;
  len-zero = length-zero;
  len-nonzero = length-nonzero;
  contains-list = λ s a. refl;
}
