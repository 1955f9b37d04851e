-- ===== src/Sets.antt =====
-- internal/sets/match.go: comparison of slices that ignores the order of their elements.
pub mod Counting
pub mod Laws
use ingress_nginx.Prelude.{
  Bool, true, false, Option, none, some, List, [], ◌∷◌, String, Slice, length, ◌==◌, nat_eq,
  string_eq, if◌then◌else◌,
}

module _ {ℓ} {A : Type ℓ} (eq : A → A → Bool) where
  -- The inner loop for one element `x` of the first list: the flags after the first element of the
  -- second list that is not visited and equal to `x` is marked; `none` where there is none.
  unfoldable pub mark_match : A → List Bool → List A → Option (List Bool)
  mark_match x [] ys = none
  mark_match x (v ∷ vs) [] = none
  mark_match x (true ∷ vs) (y ∷ ys) = elim (mark_match x vs ys) [
    | none ↦ none
    | some vs' ↦ some (true ∷ vs')
  ]
  mark_match x (false ∷ vs) (y ∷ ys) =
      let later : Option (List Bool) = elim (mark_match x vs ys) [
        | none ↦ none
        | some vs' ↦ some (false ∷ vs')
      ] in
      if eq x y then some (true ∷ vs) else later

  -- The outer loop, from the flags `visited`.
  unfoldable pub match_elements : List A → List Bool → List A → Bool
  unfolding mark_match
  match_elements [] visited ys = true
  match_elements (x ∷ xs) visited ys = elim (mark_match x visited ys) [
    | none ↦ false
    | some visited' ↦ match_elements xs visited' ys
  ]

  -- make([]bool, b.Len())
  unfoldable pub no_flags : List A → List Bool
  no_flags [] = []
  no_flags (y ∷ ys) = false ∷ no_flags ys

  -- Both arguments of the program's calls are slices, so that `isIterable` holds of them.
  unfoldable pub compare : Slice A → Slice A → Bool
  unfolding match_elements no_flags
  compare none none = true
  compare none (some ys) = false
  compare (some xs) none = false
  compare (some xs) (some ys) =
      if length xs == length ys then match_elements xs (no_flags ys) ys else false

unfoldable pub string_elements_match : Slice String → Slice String → Bool
unfolding compare
string_elements_match = compare (λ s1 s2. s1 == s2)
