-- ===== src/Equality/Pointers.antt =====
-- The forms that the comparisons of internal/ingress/types_equals.go share: through pointers, of
-- sorted slices position by position, and by a search of each element in the other slice.
use ingress_nginx.Prelude.{
  ℕ, Bool, true, false, ◌&&◌, ◌||◌, none, some, List, [], ◌∷◌, ◌≡◌, refl, sym, ◌==◌, nat_eq,
  if◌then◌else◌, IsEquiv, IsReflexive, arith, eq_refl, eq-of-test, Bool-cases, inl, inr,
}
use ingress_nginx.Api.{Ref}

module _ {ℓ} {A : Type ℓ} (load : ℕ → A) (eq : A → A → Bool) where
  -- if a == b { return true }; if a == nil || b == nil { return false }; and then the values.
  unfoldable pub equal_ptr : Ref → Ref → Bool
  equal_ptr none none = true
  equal_ptr none (some b) = false
  equal_ptr (some a) none = false
  equal_ptr (some a) (some b) = if a == b then true else eq (load a) (load b)

module _ {ℓ} {A : Type ℓ} (load : ℕ → A) (eq : A → A → Bool) where
  pub equal_ptr-IsReflexive : IsReflexive (equal_ptr load eq)
  unfolding equal_ptr
  equal_ptr-IsReflexive none = refl
  equal_ptr-IsReflexive (some a) = ground (arith, eq_refl a)

  module _ (equiv : IsEquiv eq) where
    -- The test of the addresses decides nothing that the values would not.
    equal_ptr-values : (a b : ℕ) → equal_ptr load eq (some a) (some b) ≡ eq (load a) (load b)
    unfolding equal_ptr
    equal_ptr-values a b = elim (Bool-cases (a == b)) [
      | inl same ↦ rw (same, equal_ptr) (rw (eq-of-test a b same) (sym (equiv.reflexive (load b))))
      | inr other ↦ rw (other, equal_ptr) refl
    ]

    symmetric : (p q : Ref) → equal_ptr load eq p q ≡ true → equal_ptr load eq q p ≡ true
    unfolding equal_ptr
    symmetric none none h = refl
    symmetric none (some b) h = h
    symmetric (some a) none h = h
    symmetric (some a) (some b) h =
        rw (equal_ptr-values b a) (equiv.symmetric _ _ (rw (equal_ptr-values a b) at h))

    transitive :
        (p q r : Ref)
        → equal_ptr load eq p q ≡ true
        → equal_ptr load eq q r ≡ true
        → equal_ptr load eq p r ≡ true
    unfolding equal_ptr
    transitive none none r h k = k
    transitive none (some b) r h k = cc
    transitive (some a) none r h k = cc
    transitive (some a) (some b) none h k = k
    transitive (some a) (some b) (some c) h k = rw (equal_ptr-values a c) (
        equiv.transitive _ (load b) _ (rw (equal_ptr-values a b) at h)
          (rw (equal_ptr-values b c) at k))

    pub equal_ptr-IsEquiv : IsEquiv (equal_ptr load eq)
    equal_ptr-IsEquiv = record {
      reflexive = equal_ptr-IsReflexive;
      symmetric = symmetric;
      transitive = transitive;
    }

module _ {ℓ} {A : Type ℓ} (eq : A → A → Bool) where
  -- for idx, a := range c1.X { if !a.Equal(c2.X[idx]) { return false } }, after a test that the
  -- lengths are equal: the index is in range.
  unfoldable pub equal_in_order : List A → List A → Bool
  equal_in_order [] ys = true
  equal_in_order (x ∷ xs) [] = false
  equal_in_order (x ∷ xs) (y ∷ ys) = eq x y && equal_in_order xs ys

  unfoldable pub found_in : A → List A → Bool
  found_in x [] = false
  found_in x (y ∷ ys) = eq x y || found_in x ys

  -- for _, a := range c1.X: some element of c2.X is equal to it.
  unfoldable pub all_found : List A → List A → Bool
  unfolding found_in
  all_found [] ys = true
  all_found (x ∷ xs) ys = found_in x ys && all_found xs ys

module _ {ℓ} {A : Type ℓ} (eq : A → A → Bool) (r : IsReflexive eq) where
  pub equal_in_order-IsReflexive : IsReflexive (equal_in_order eq)
  unfolding equal_in_order
  equal_in_order-IsReflexive [] = refl
  equal_in_order-IsReflexive (x ∷ xs) = ground (arith, r x, equal_in_order-IsReflexive xs)

  all_found-cons :
      (xs ys : List A) (y : A) → all_found eq xs ys ≡ true → all_found eq xs (y ∷ ys) ≡ true
  unfolding all_found
  all_found-cons [] ys y h = refl
  all_found-cons (x ∷ xs) ys y h = ground (arith, all_found-cons xs ys y)

  pub all_found-IsReflexive : IsReflexive (all_found eq)
  unfolding all_found
  all_found-IsReflexive [] = refl
  all_found-IsReflexive (x ∷ xs) =
      ground (arith, r x, all_found-cons xs xs x (all_found-IsReflexive xs))
