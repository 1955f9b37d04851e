-- ===== src/Sorting.antt =====
-- sort.SliceStable of the Go library, and the order of texts. An insertion into the sorted rest keeps
-- the order of equal elements.
pub mod Laws
use Prim.Native.Char.{code}
use Prim.Native.String
use ingress_nginx.Prelude.{
  Bool, true, false, ◌&&◌, ◌||◌, List, [], ◌∷◌, String, ◌==◌, nat_eq, ltb, if◌then◌else◌,
}

-- s < t, by the numbers of the characters, which is the order of the bytes
unfoldable pub text_less : String → String → Bool
text_less String.[] String.[] = false
text_less String.[] (String.◌∷◌ d t) = true
text_less (String.◌∷◌ c s) String.[] = false
text_less (String.◌∷◌ c s) (String.◌∷◌ d t) =
    ltb (code c) (code d) || (code c == code d && text_less s t)

module _ {ℓ} {A : Type ℓ} (less : A → A → Bool) where
  unfoldable pub insert_sorted : A → List A → List A
  insert_sorted x [] = x ∷ []
  insert_sorted x (y ∷ ys) =
      let rest = insert_sorted x ys in if less y x then y ∷ rest else x ∷ y ∷ ys

  unfoldable pub slice_stable : List A → List A
  unfolding insert_sorted
  slice_stable [] = []
  slice_stable (x ∷ xs) = insert_sorted x (slice_stable xs)
