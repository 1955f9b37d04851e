-- ===== src/Equality/Distinct.antt =====
-- The search of each element in a slice of the same length is one-sided; it is symmetric where the
-- elements that are searched for differ from one another.
use ingress_nginx.Prelude.{
  Bool, true, false, ◌||◌, none, some, List, [], ◌∷◌, ◌≡◌, ◌≢◌, refl, IsEquiv, arith, length, All,
  inl, inr, Option-cases,
}
use ingress_nginx.Sets.Counting.{remove_first, length-remove_first}
use ingress_nginx.Equality.Pointers.{equal_in_order, found_in, all_found}

module _ {ℓ} {A : Type ℓ} (eq : A → A → Bool) where
  abbrev pub AllDistinct : List A → Type 0
  AllDistinct [] = Unit
  AllDistinct (x ∷ xs) = (found_in eq x xs ≡ false) × AllDistinct xs

  module _ (equiv : IsEquiv eq) where
    found_in-congr : (x y : A) (zs : List A) → eq x y ≡ true → found_in eq x zs ≡ found_in eq y zs
    unfolding found_in
    found_in-congr x y [] e = refl
    found_in-congr x y (z ∷ zs) e = ground (
      arith,
      found_in-congr x y zs e,
      equiv.transitive x y z,
      equiv.transitive y x z,
      equiv.symmetric x y,
    )

    removed-of-found : (x : A) (ys : List A) → found_in eq x ys ≡ true → remove_first eq x ys ≢ none
    unfolding found_in remove_first
    removed-of-found x [] h e = cc
    removed-of-found x (y ∷ ys) h e = ground (arith, removed-of-found x ys)

    found_in-removed :
        (z x : A) (ys r : List A)
        → remove_first eq x ys ≡ some r
        → found_in eq z ys ≡ (eq z x || found_in eq z r)
    unfolding found_in remove_first
    found_in-removed z x [] r h = cc
    found_in-removed z x (y ∷ ys) r h = elim (Option-cases (remove_first eq x ys)) [
      | inl missing ↦
          ground (arith, equiv.transitive z x y, equiv.transitive z y x, equiv.symmetric x y)
      | inr (r', found) ↦ ground (
        arith,
        found_in-removed z x ys r' found,
        equiv.transitive z x y,
        equiv.transitive z y x,
        equiv.symmetric x y,
      )
    ]

    all_found-removed :
        (x : A) (ys r zs : List A)
        → remove_first eq x ys ≡ some r
        → found_in eq x zs ≡ true
        → all_found eq r zs ≡ true
        → all_found eq ys zs ≡ true
    unfolding all_found remove_first
    all_found-removed x [] r zs h f a = cc
    all_found-removed x (y ∷ ys) r zs h f a = elim (Option-cases (remove_first eq x ys)) [
      | inl missing ↦ ground (arith, found_in-congr x y zs)
      | inr (r', found) ↦
          ground (arith, found_in-congr x y zs, all_found-removed x ys r' zs found f)
    ]

    still_found :
        (x : A) (xs ys r : List A)
        → remove_first eq x ys ≡ some r
        → found_in eq x xs ≡ false
        → all_found eq xs ys ≡ true
        → all_found eq xs r ≡ true
    unfolding all_found found_in
    still_found x [] ys r h d a = refl
    still_found x (z ∷ xs) ys r h d a =
        ground (arith, still_found x xs ys r h, found_in-removed z x ys r h, equiv.symmetric z x)

    all_found-weaken :
        (xs ys : List A) (y : A) → all_found eq xs ys ≡ true → all_found eq xs (y ∷ ys) ≡ true
    unfolding all_found
    all_found-weaken [] ys y h = refl
    all_found-weaken (x ∷ xs) ys y h = ground (arith, all_found-weaken xs ys y)

    pub all_found-symmetric :
        (xs ys : List A)
        → AllDistinct xs
        → length xs ≡ length ys
        → all_found eq xs ys ≡ true
        → all_found eq ys xs ≡ true
    unfolding all_found found_in
    all_found-symmetric [] [] d l h = refl
    all_found-symmetric [] (y ∷ ys) d l h = absurd (omega arith)
    all_found-symmetric (x ∷ xs) ys d l h = elim (Option-cases (remove_first eq x ys)) [
      | inl missing ↦ absurd (removed-of-found x ys (ground arith) missing)
      | inr (r, found) ↦
          let shorter = length-remove_first eq x ys r found in
          let rest = still_found x xs ys r found d.0 (ground arith) in
          let back = all_found-symmetric xs r d.1 (omega arith) rest in
          all_found-removed x ys r (x ∷ xs) found (ground (arith, equiv.reflexive x))
            (all_found-weaken r xs x back)
    ]

module _ {A : Type 0} (eq : A → A → Bool) (P : A → Type 0) where
  pub equal_in_order-symmetric :
      ((x y : A) → P x → eq x y ≡ true → eq y x ≡ true)
      → (xs ys : List A) → All P xs
      → length xs ≡ length ys
      → equal_in_order eq xs ys ≡ true
      → equal_in_order eq ys xs ≡ true
  unfolding equal_in_order
  equal_in_order-symmetric sym_eq [] [] p l h = refl
  equal_in_order-symmetric sym_eq [] (y ∷ ys) p l h = absurd (omega arith)
  equal_in_order-symmetric sym_eq (x ∷ xs) [] p l h = absurd (omega arith)
  equal_in_order-symmetric sym_eq (x ∷ xs) (y ∷ ys) p l h =
      let later = equal_in_order-symmetric sym_eq xs ys p.1 (omega arith) (ground arith) in
      ground (arith, sym_eq x y p.0)
