-- ===== src/Sets/Counting.antt =====
-- How often an element occurs in a list, up to an equivalence; taking one occurrence out.
use ingress_nginx.Prelude.{
  ℕ, suc, ◌≡◌, refl, Bool, true, false, Option, none, some, List, [], ◌∷◌, arith, length,
  if◌then◌else◌, IsEquiv, Option-cases, inl, inr,
}

module _ {ℓ} {A : Type ℓ} (eq : A → A → Bool) where
  unfoldable pub count : A → List A → ℕ
  count z [] = 0
  count z (y ∷ ys) = if eq z y then suc (count z ys) else count z ys

  -- The list without the first element equal to `x`.
  unfoldable pub remove_first : A → List A → Option (List A)
  remove_first x [] = none
  remove_first x (y ∷ ys) =
      let later : Option (List A) = elim (remove_first x ys) [
        | none ↦ none
        | some r ↦ some (y ∷ r)
      ] in
      if eq x y then some ys else later

  unfoldable pub matches : List A → List A → Bool
  matches [] ys = true
  matches (x ∷ xs) ys = elim (remove_first x ys) [ none ↦ false | some r ↦ matches xs r ]

  pub length-remove_first :
      (x : A) (ys r : List A) → remove_first x ys ≡ some r → length ys ≡ suc (length r)
  unfolding remove_first
  length-remove_first x [] r h = cc
  length-remove_first x (y ∷ ys) r h = elim (Option-cases (remove_first x ys)) [
    | inl missing ↦ ground arith
    | inr (r', found) ↦ ground (arith, length-remove_first x ys r' found)
  ]

  module _ (equiv : IsEquiv eq) where
    eq_left : (z x y : A) → eq x y ≡ true → eq z x ≡ eq z y
    eq_left z x y h =
        ground (arith, equiv.transitive z x y, equiv.transitive z y x, equiv.symmetric x y)

    pub count-remove_first :
        (z x : A) (ys r : List A) → remove_first x ys ≡ some r → count z ys ≡ count z (x ∷ r)
    unfolding remove_first count
    count-remove_first z x [] r h = cc
    count-remove_first z x (y ∷ ys) r h = elim (Option-cases (remove_first x ys)) [
      | inl missing ↦ ground (arith, eq_left z x y)
      | inr (r', found) ↦ ground (arith, eq_left z x y, count-remove_first z x ys r' found)
    ]

    pub count-of-missing : (x : A) (ys : List A) → remove_first x ys ≡ none → count x ys ≡ 0
    unfolding remove_first count
    count-of-missing x [] h = refl
    count-of-missing x (y ∷ ys) h = ground (arith, count-of-missing x ys)

    count-nil : (ys : List A) → ((z : A) → count z ys ≡ 0) → ys ≡ []
    unfolding count
    count-nil [] h = refl
    count-nil (y ∷ ys) h = ground (arith, h y, equiv.reflexive y)

    pub count-of-matches :
        (xs ys : List A)
        → length xs ≡ length ys
        → matches xs ys ≡ true
        → (z : A) → count z xs ≡ count z ys
    unfolding matches count
    count-of-matches [] [] l h z = refl
    count-of-matches [] (y ∷ ys) l h z = absurd (omega arith)
    count-of-matches (x ∷ xs) ys l h z = elim (Option-cases (remove_first x ys)) [
      | inl missing ↦ ground arith
      | inr (r, found) ↦
          let ih =
            count-of-matches xs r (omega (arith, length-remove_first x ys r found)) (ground arith)
              z in
          ground (arith, ih, count-remove_first z x ys r found)
    ]

    pub matches-of-count :
        (xs ys : List A)
        → ((z : A) → count z xs ≡ count z ys)
        → (length xs ≡ length ys) × (matches xs ys ≡ true)
    unfolding matches count
    matches-of-count [] ys h = ground (arith, count-nil ys (λ z. ground (arith, h z)))
    matches-of-count (x ∷ xs) ys h = elim (Option-cases (remove_first x ys)) [
      | inl missing ↦ absurd (ground (arith, count-of-missing x ys missing, h x, equiv.reflexive x))
      | inr (r, found) ↦
          let (l, m) =
            matches-of-count xs r (λ z. ground (arith, h z, count-remove_first z x ys r found)) in
          (omega (arith, length-remove_first x ys r found), rw (found, matches) m)
    ]
