-- ===== src/Prelude/Lists.antt =====
-- Lists measured by native numbers, and predicates on their elements. A Go slice is nil or a list.
use Prim.Native.Nat.{ℕ, suc, ◌+◌}
use mathlib.Core.Path.{◌≡◌, refl, subst}
use mathlib.Core.Option.{Option, none, some}
use mathlib.Core.List.{List, [], ◌∷◌, ◌++◌}
use mathlib.Core.Logic.{◌⊎◌, inl, inr}
use native.Mathlib.Omega.{arith}

module _ {ℓ} {A : Type ℓ} where
  abbrev pub length : List A → ℕ
  length [] = 0
  length (x ∷ xs) = suc (length xs)

  pub length-append : (xs ys : List A) → length (xs ++ ys) ≡ length xs + length ys
  length-append [] ys = omega arith
  length-append (x ∷ xs) ys = omega (arith, length-append xs ys)

-- A slice: `none` is nil, which the program tells apart from an empty one.
abbrev pub Slice {ℓ} : Type ℓ → Type ℓ
Slice A = Option (List A)

abbrev pub elems {ℓ} : {A : Type ℓ} → Slice A → List A
elems none = []
elems (some xs) = xs

abbrev pub len {ℓ} : {A : Type ℓ} → Slice A → ℕ
len s = length (elems s)

module _ {ℓ κ} {A : Type ℓ} (P : A → Type κ) where
  abbrev pub All : List A → Type κ
  All [] = Unit
  All (x ∷ xs) = P x × All xs

pub All-append {ℓ κ} :
    {A : Type ℓ} (P : A → Type κ) (xs ys : List A) → All P xs → All P ys → All P (xs ++ ys)
All-append P [] ys h k = k
All-append P (x ∷ xs) ys (p, h) k = (p, All-append P xs ys h k)

module _ {ℓ} {A : Type ℓ} (P : A → Type 0) where
  -- Some element has the property.
  abbrev pub Some : List A → Type 0
  Some [] = ⊥
  Some (x ∷ xs) = P x ⊎ Some xs

  pub Some-append_left : (xs ys : List A) → Some xs → Some (xs ++ ys)
  Some-append_left [] ys h = absurd h
  Some-append_left (x ∷ xs) ys (inl p) = inl p
  Some-append_left (x ∷ xs) ys (inr h) = inr (Some-append_left xs ys h)

  pub Some-append_right : (xs ys : List A) → Some ys → Some (xs ++ ys)
  Some-append_right [] ys h = h
  Some-append_right (x ∷ xs) ys h = inr (Some-append_right xs ys h)

  pub Some-append : (xs ys : List A) → Some (xs ++ ys) → Some xs ⊎ Some ys
  Some-append [] ys h = inr h
  Some-append (x ∷ xs) ys (inl p) = inl (inl p)
  Some-append (x ∷ xs) ys (inr h) = elim (Some-append xs ys h) [
    | inl a ↦ inl (inr a)
    | inr b ↦ inr b
  ]

module _ {A : Type 0} (Q : A → Type 0) where
  -- What holds of each member holds of all.
  pub All-of-members : (xs : List A) → ((x : A) → Some (λ y. x ≡ y) xs → Q x) → All Q xs
  All-of-members [] h = tt
  All-of-members (x ∷ xs) h = (h x (inl refl), All-of-members xs (λ y m. h y (inr m)))

  pub Some-of-member : (xs : List A) (x : A) → Some (λ y. x ≡ y) xs → Q x → Some Q xs
  Some-of-member [] x m q = absurd m
  Some-of-member (y ∷ xs) x (inl e) q = inl (subst Q e q)
  Some-of-member (y ∷ xs) x (inr m) q = inr (Some-of-member xs x m q)
