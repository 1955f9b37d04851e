-- ===== src/Sorting/Laws.antt =====
-- A stable sort permutes its input, orders it, and keeps an earlier order of equal elements.
use mathlib.Core.List.{Perm}
use mathlib.Core.List.Perm
use ingress_nginx.Prelude.{
  Bool, true, false, List, [], ◌∷◌, String, nat_eq, ◌≡◌, refl, arith, All, if-cases,
}
use ingress_nginx.Sorting.{text_less, insert_sorted, slice_stable}

-- Each element stands in the relation to all later ones.
abbrev pub Pairs {ℓ κ} : {A : Type ℓ} → (A → A → Type κ) → List A → Type κ
Pairs R [] = Unit
Pairs R (x ∷ xs) = All (R x) xs × Pairs R xs

pub All-map {ℓ κ} :
    {A : Type ℓ} (P R : A → Type κ) (xs : List A) → ((x : A) → P x → R x) → All P xs → All R xs
All-map P R [] f h = tt
All-map P R (x ∷ xs) f h = (f x h.0, All-map P R xs f h.1)

pub Pairs-map {ℓ κ} :
    {A : Type ℓ} (R T : A → A → Type κ) (xs : List A)
    → ((x y : A) → R x y → T x y)
    → Pairs R xs
    → Pairs T xs
Pairs-map R T [] f h = tt
Pairs-map R T (x ∷ xs) f h = (All-map (R x) (T x) xs (f x) h.0, Pairs-map R T xs f h.1)

-- Every list is ordered by a relation that always holds.
pub Pairs-any {ℓ κ} :
    {A : Type ℓ} (R : A → A → Type κ) (xs : List A) → ((x y : A) → R x y) → Pairs R xs
Pairs-any {A = A} R [] f = tt
Pairs-any {A = A} R (x ∷ xs) f = (every xs, Pairs-any R xs f)
  where
    every : (ys : List A) → All (R x) ys
    every [] = tt
    every (y ∷ ys) = (f x y, every ys)

-- A strict order whose incomparable elements are alike.
pub record IsStrictWeak {ℓ} {A : Type ℓ} (less : A → A → Bool) : Type ℓ where
  pub asymmetric : (a b : A) → less a b ≡ true → less b a ≡ false
  pub passes : (a b c : A) → less b a ≡ false → less c b ≡ false → less c a ≡ false

module _ {ℓ} {A : Type ℓ} (less : A → A → Bool) where
  -- The one may stand before the other, and if they are alike, they stand in `R`.
  abbrev pub Stable : (A → A → Type 0) → A → A → Type 0
  Stable R a b = (less b a ≡ false) × (less a b ≡ false → R a b)

  pub insert_sorted-permutes : (x : A) (ys : List A) → Perm (x ∷ ys) (insert_sorted less x ys)
  unfolding insert_sorted
  insert_sorted-permutes x [] = Perm.refl (x ∷ [])
  insert_sorted-permutes x (y ∷ ys) =
      if-cases (Perm (x ∷ y ∷ ys)) (less y x) _ _
        (λ later. Perm.trans (Perm.swap y x ys) (Perm.cons y (insert_sorted-permutes x ys)))
        (λ here. Perm.refl (x ∷ y ∷ ys))

  pub slice_stable-permutes : (xs : List A) → Perm xs (slice_stable less xs)
  unfolding slice_stable
  slice_stable-permutes [] = Perm.refl []
  slice_stable-permutes (x ∷ xs) =
      Perm.trans (Perm.cons x (slice_stable-permutes xs))
        (insert_sorted-permutes x (slice_stable less xs))

  insert_sorted-All :
      (P : A → Type 0) (x : A) (ys : List A) → P x → All P ys → All P (insert_sorted less x ys)
  unfolding insert_sorted
  insert_sorted-All P x [] p h = (p, tt)
  insert_sorted-All P x (y ∷ ys) p h =
      if-cases (All P) (less y x) _ _ (λ later. (h.0, insert_sorted-All P x ys p h.1))
        (λ here. (p, h))

  pub slice_stable-All : (P : A → Type 0) (xs : List A) → All P xs → All P (slice_stable less xs)
  unfolding slice_stable
  slice_stable-All P [] h = tt
  slice_stable-All P (x ∷ xs) h =
      insert_sorted-All P x (slice_stable less xs) h.0 (slice_stable-All P xs h.1)

  module _ (weak : IsStrictWeak less) (R : A → A → Type 0) where
    earlier-All :
        (x y : A) (ys : List A)
        → less y x ≡ false
        → All (R x) ys
        → All (Stable R y) ys
        → All (Stable R x) ys
    earlier-All x y [] here rs s = tt
    earlier-All x y (z ∷ ys) here rs s =
        ((weak.passes x y z here s.0.0, λ alike. rs.0), earlier-All x y ys here rs.1 s.1)

    insert_sorted-Stable :
        (x : A) (ys : List A)
        → All (R x) ys
        → Pairs (Stable R) ys
        → Pairs (Stable R) (insert_sorted less x ys)
    unfolding insert_sorted
    insert_sorted-Stable x [] rs s = (tt, tt)
    insert_sorted-Stable x (y ∷ ys) rs s =
        if-cases (Pairs (Stable R)) (less y x) _ _
          (λ later. (
            insert_sorted-All (Stable R y) x ys
                (weak.asymmetric y x later, λ alike. ground (arith, later, alike)) s.0,
            insert_sorted-Stable x ys rs.1 s.1,
          ))
          (λ here. (((here, λ alike. rs.0), earlier-All x y ys here rs.1 s.0), s))

    pub slice_stable-Stable : (xs : List A) → Pairs R xs → Pairs (Stable R) (slice_stable less xs)
    unfolding slice_stable
    slice_stable-Stable [] h = tt
    slice_stable-Stable (x ∷ xs) h =
        insert_sorted-Stable x (slice_stable less xs) (slice_stable-All (R x) xs h.0)
          (slice_stable-Stable xs h.1)

text_less-asymmetric : (s t : String) → text_less s t ≡ true → text_less t s ≡ false
unfolding text_less
text_less-asymmetric String.[] String.[] h = refl
text_less-asymmetric String.[] (String.◌∷◌ d t) h = refl
text_less-asymmetric (String.◌∷◌ c s) String.[] h = ground (arith, h)
text_less-asymmetric (String.◌∷◌ c s) (String.◌∷◌ d t) h =
    ground (arith, text_less-asymmetric s t, h)

text_less-passes :
    (s t u : String) → text_less t s ≡ false → text_less u t ≡ false → text_less u s ≡ false
unfolding text_less
text_less-passes String.[] t String.[] h k = refl
text_less-passes String.[] String.[] (String.◌∷◌ e u) h k = refl
text_less-passes String.[] (String.◌∷◌ d t) (String.◌∷◌ e u) h k = refl
text_less-passes (String.◌∷◌ c s) String.[] u h k = ground (arith, h)
text_less-passes (String.◌∷◌ c s) (String.◌∷◌ d t) String.[] h k = ground (arith, k)
text_less-passes (String.◌∷◌ c s) (String.◌∷◌ d t) (String.◌∷◌ e u) h k =
    ground (arith, text_less-passes s t u, h, k)

pub text_less-IsStrictWeak : IsStrictWeak text_less
text_less-IsStrictWeak = record { asymmetric = text_less-asymmetric; passes = text_less-passes }
