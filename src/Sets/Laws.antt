-- ===== src/Sets/Laws.antt =====
-- The loops of `compare` with their flags, and what they decide.
use ingress_nginx.Prelude.{
  ◌≡◌, ◌↔◌, refl, sym, ◌∙◌, Bool, true, false, Option, none, some, List, [], ◌∷◌, Slice, arith,
  IsEquiv, Option-cases, inl, inr, nat_eq, string_eq, on-IsEquiv,
}
use ingress_nginx.Sets.{mark_match, match_elements, no_flags, compare, string_elements_match}
use ingress_nginx.Sets.Counting.{count, remove_first, matches, count-of-matches, matches-of-count}

-- The elements whose flag is not set.
abbrev unvisited {ℓ} : {A : Type ℓ} → List Bool → List A → List A
unvisited [] ys = []
unvisited (v ∷ vs) [] = []
unvisited (true ∷ vs) (y ∷ ys) = unvisited vs ys
unvisited (false ∷ vs) (y ∷ ys) = y ∷ unvisited vs ys

abbrev left_over {ℓ} : {A : Type ℓ} → List A → Option (List Bool) → Option (List A)
left_over ys none = none
left_over ys (some vs) = some (unvisited vs ys)

module _ {ℓ} {A : Type ℓ} (eq : A → A → Bool) where
  unvisited-no_flags : (ys : List A) → unvisited (no_flags eq ys) ys ≡ ys
  unfolding no_flags
  unvisited-no_flags [] = refl
  unvisited-no_flags (y ∷ ys) = rw (unvisited-no_flags ys)

  -- Marking a flag is removing the element from those that are not visited.
  mark_match_lem :
      (x : A) (vs : List Bool) (ys : List A)
      → left_over ys (mark_match eq x vs ys) ≡ remove_first eq x (unvisited vs ys)
  unfolding mark_match remove_first
  mark_match_lem x [] ys = refl
  mark_match_lem x (v ∷ vs) [] = refl
  mark_match_lem x (true ∷ vs) (y ∷ ys) = elim (Option-cases (mark_match eq x vs ys)) [
    | inl missing ↦ ground (arith, mark_match_lem x vs ys)
    | inr (vs', found) ↦ ground (arith, mark_match_lem x vs ys)
  ]
  mark_match_lem x (false ∷ vs) (y ∷ ys) = elim (Option-cases (mark_match eq x vs ys)) [
    | inl missing ↦ ground (arith, mark_match_lem x vs ys)
    | inr (vs', found) ↦ ground (arith, mark_match_lem x vs ys)
  ]

  match_elements-eq-matches :
      (xs : List A) (vs : List Bool) (ys : List A)
      → match_elements eq xs vs ys ≡ matches eq xs (unvisited vs ys)
  unfolding match_elements matches
  match_elements-eq-matches [] vs ys = refl
  match_elements-eq-matches (x ∷ xs) vs ys = elim (Option-cases (mark_match eq x vs ys)) [
    | inl missing ↦ ground (arith, mark_match_lem x vs ys)
    | inr (vs', found) ↦ ground (arith, mark_match_lem x vs ys, match_elements-eq-matches xs vs' ys)
  ]

module _ {A : Type 0} (eq : A → A → Bool) where
  -- Both slices are nil, or neither is and each element occurs as often in the one as in the other.
  abbrev pub SameElements : Slice A → Slice A → Type 0
  SameElements none none = Unit
  SameElements (some xs) (some ys) = (z : A) → count eq z xs ≡ count eq z ys
  SameElements none (some ys) = ⊥
  SameElements (some xs) none = ⊥

  SameElements-reflexive : (a : Slice A) → SameElements a a
  SameElements-reflexive none = tt
  SameElements-reflexive (some xs) = λ z. refl

  SameElements-symmetric : (a b : Slice A) → SameElements a b → SameElements b a
  SameElements-symmetric none none h = tt
  SameElements-symmetric (some xs) (some ys) h = λ z. sym (h z)
  SameElements-symmetric none (some ys) h = h
  SameElements-symmetric (some xs) none h = h

  SameElements-transitive :
      (a b c : Slice A) → SameElements a b → SameElements b c → SameElements a c
  SameElements-transitive none none c h k = k
  SameElements-transitive (some xs) (some ys) (some zs) h k = λ z. h z ∙ k z
  SameElements-transitive (some xs) (some ys) none h k = k
  SameElements-transitive none (some ys) c h k = absurd h
  SameElements-transitive (some xs) none c h k = absurd h

  -- Of an equivalence relation on the elements, `Compare` accepts exactly the pairs of slices that
  -- are both nil, or both not nil with every element as often in the one as in the other.
  pub compare_iff : (a b : Slice A) → IsEquiv eq → (compare eq a b ≡ true) ↔ SameElements a b
  unfolding compare
  compare_iff none none equiv = (λ _. tt, λ _. refl)
  compare_iff none (some ys) equiv = (λ h. cc, λ h. absurd h)
  compare_iff (some xs) none equiv = (λ h. cc, λ h. absurd h)
  compare_iff (some xs) (some ys) equiv =
      let same = match_elements-eq-matches eq xs (no_flags eq ys) ys in
      let start = unvisited-no_flags eq ys in
      (
        λ h z. count-of-matches eq equiv xs ys (ground arith) (ground arith) z,
        λ h. let (l, m) = matches-of-count eq equiv xs ys h in ground arith,
      )

  -- The comparison of slices by an equivalence relation is an equivalence relation.
  pub compare-IsEquiv : IsEquiv eq → IsEquiv (compare eq)
  compare-IsEquiv equiv = record {
    reflexive = λ a. (compare_iff a a equiv).1 (SameElements-reflexive a);
    symmetric = λ a b h.
        (compare_iff b a equiv).1 (SameElements-symmetric a b ((compare_iff a b equiv).0 h));
    transitive = λ a b c h k.
        (compare_iff a c equiv).1 (
          SameElements-transitive a b c ((compare_iff a b equiv).0 h)
            ((compare_iff b c equiv).0 k));
  }

pub string_elements_match-IsEquiv : IsEquiv string_elements_match
unfolding string_elements_match
string_elements_match-IsEquiv = compare-IsEquiv _ (on-IsEquiv (λ s. s))
