-- ===== src/Status/Order.antt =====
-- The order of the addresses is total, so that sorting forgets just the order of its input.
use Prim.Native.Char.{code}
use text.Mathlib.TextEquality.{Char-path}
use mathlib.Core.List.{Permᴰ}
use ingress_nginx.Prelude.{
  Bool, true, false, List, [], ◌∷◌, String, ◌≡◌, refl, sym, ap, ◌∙◌, ◌==◌, string_eq, nat_eq, arith,
  Bool-cases, inl, inr, eq-of-test,
}
use ingress_nginx.Sorting.{insert_sorted, slice_stable, text_less}
use ingress_nginx.Sorting.Laws.{IsStrictWeak}

-- A strict order in which incomparable elements are equal.
pub record IsTotal {ℓ} {A : Type ℓ} (less : A → A → Bool) : Type ℓ where
  pub weak : IsStrictWeak less
  pub alike : (a b : A) → less a b ≡ false → less b a ≡ false → a ≡ b

pub text_less-alike : (s t : String) → text_less s t ≡ false → text_less t s ≡ false → s ≡ t
unfolding text_less
text_less-alike String.[] String.[] h k = refl
text_less-alike String.[] (String.◌∷◌ d t) h k = ground (arith, h)
text_less-alike (String.◌∷◌ c s) String.[] h k = ground (arith, k)
text_less-alike (String.◌∷◌ c s) (String.◌∷◌ d t) h k =
    let same : (code c == code d) ≡ true = ground (arith, h, k) in
    let first : c ≡ d = Char-path c d (eq-of-test (code c) (code d) same) in
    let rest : s ≡ t = text_less-alike s t (ground (arith, h, same)) (ground (arith, k, same)) in
    rw first (rw rest refl)

module _ {ℓ} {A : Type ℓ} (less : A → A → Bool) (total : IsTotal less) where
  insert_sorted-distinct :
      (x y : A) (zs : List A)
      → less x y ≡ true
      → insert_sorted less x (insert_sorted less y zs)
        ≡ insert_sorted less y (insert_sorted less x zs)
  unfolding insert_sorted
  insert_sorted-distinct x y [] h = ground (arith, h, total.weak.asymmetric x y h)
  insert_sorted-distinct x y (z ∷ zs) h = ground (
    arith,
    h,
    total.weak.asymmetric x y h,
    total.weak.passes y x z,
    total.weak.passes x y z,
    insert_sorted-distinct x y zs h,
  )

  insert_sorted-swap :
      (x y : A) (zs : List A)
      → insert_sorted less x (insert_sorted less y zs)
        ≡ insert_sorted less y (insert_sorted less x zs)
  insert_sorted-swap x y zs = elim (Bool-cases (less x y)) [
    | inl below ↦ insert_sorted-distinct x y zs below
    | inr not_below ↦ elim (Bool-cases (less y x)) [
      | inl above ↦ sym (insert_sorted-distinct y x zs above)
      | inr not_above ↦ let same = total.alike x y not_below not_above in rw same refl
    ]
  ]

  pub slice_stable-Permᴰ :
      (xs ys : List A) → Permᴰ xs ys → slice_stable less xs ≡ slice_stable less ys
  unfolding slice_stable
  slice_stable-Permᴰ xs ys Permᴰ.nil = refl
  slice_stable-Permᴰ xs ys (Permᴰ.cons {a = a} {b = b} {l₁ = l₁} {l₂ = l₂} e p) =
      rw e (ap (insert_sorted less b) (slice_stable-Permᴰ l₁ l₂ p))
  slice_stable-Permᴰ xs ys (Permᴰ.swap {a = a} {b = b} {a' = a'} {b' = b'} {l = l} e f) =
      rw e (rw f (insert_sorted-swap b' a' (slice_stable less l)))
  slice_stable-Permᴰ xs ys (Permᴰ.trans {l₂ = l₂} p q) =
      slice_stable-Permᴰ xs l₂ p ∙ slice_stable-Permᴰ l₂ ys q
