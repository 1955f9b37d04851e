-- ===== src/Strings/Prefixes.antt =====
-- Prefixes of request paths, by characters and by the elements between slashes.
use Prim.Native.Char.{Char, code}
use text.Mathlib.TextLemmas.{
  cons-append, nil≢cons, cons≢nil, head-eq_of_cons-eq, tail-eq_of_cons-eq,
}
use text.Mathlib.TextEquality.{Char-path}
use ingress_nginx.Prelude.{
  Bool, true, false, String, ◌≡◌, refl, ◌==◌, nat_eq, string_eq, arith, ◌&&◌, ◌||◌, eq-of-test,
  test-of-eq, test-of-ne, Bool-cases, inl, inr, ap,
}
use ingress_nginx.Strings.{◌^^◌}

-- The request path `r` starts with `p`.
unfoldable pub starts_with : String → String → Bool
starts_with String.[] r = true
starts_with (String.◌∷◌ c p) String.[] = false
starts_with (String.◌∷◌ c p) (String.◌∷◌ d r) = code c == code d && starts_with p r

-- The elements of `p` are the first elements of `r`.
unfoldable pub has_elements : String → String → Bool
has_elements String.[] String.[] = true
has_elements String.[] (String.◌∷◌ d r) = b'/' == code d
has_elements (String.◌∷◌ c p) String.[] = false
has_elements (String.◌∷◌ c p) (String.◌∷◌ d r) = code c == code d && has_elements p r

cons-test :
    (c d : Char) (p r : String) → (String.◌∷◌ c p == String.◌∷◌ d r) ≡ (code c == code d && p == r)
cons-test c d p r =
    let whole = test-of-eq (String.◌∷◌ c p) (String.◌∷◌ d r) in
    let back : String.◌∷◌ c p ≡ String.◌∷◌ d r → (code c == code d && p == r) ≡ true = λ h. ground (
      arith,
      test-of-eq (code c) (code d) (ap code (head-eq_of_cons-eq h)),
      test-of-eq p r (tail-eq_of_cons-eq h),
    ) in
    let whole-eq = eq-of-test (String.◌∷◌ c p) (String.◌∷◌ d r) in
    elim (Bool-cases (code c == code d && p == r)) [
      | inl both ↦
          let c≡d : c ≡ d = Char-path c d (eq-of-test (code c) (code d) (ground arith)) in
          let p≡r : p ≡ r = eq-of-test p r (ground arith) in rw both (whole (rw c≡d (rw p≡r refl)))
      | inr neither ↦ elim (Bool-cases (String.◌∷◌ c p == String.◌∷◌ d r)) [
        | inl same ↦ ground (arith, back (whole-eq same))
        | inr other ↦ rw neither other
      ]
    ]

pub has_elements_iff : (p r : String) → has_elements p r ≡ (starts_with (p ^^ "/") r || p == r)
unfolding starts_with has_elements
has_elements_iff String.[] String.[] = refl
has_elements_iff String.[] (String.◌∷◌ d r) =
    ground (arith, test-of-ne "" (String.◌∷◌ d r) (λ h. nil≢cons h))
has_elements_iff (String.◌∷◌ c p) String.[] =
    rw cons-append (ground (arith, test-of-ne (String.◌∷◌ c p) "" (λ h. cons≢nil h)))
has_elements_iff (String.◌∷◌ c p) (String.◌∷◌ d r) =
    rw cons-append (ground (arith, cons-test c d p r, has_elements_iff p r))

pub starts_with_self : (p r : String) → p == r ≡ true → starts_with p r ≡ true
unfolding starts_with
starts_with_self String.[] r h = refl
starts_with_self (String.◌∷◌ c p) String.[] h =
    ground (arith, test-of-ne (String.◌∷◌ c p) "" (λ h. cons≢nil h))
starts_with_self (String.◌∷◌ c p) (String.◌∷◌ d r) h =
    ground (arith, cons-test c d p r, starts_with_self p r)

-- A longer text that starts with a given text does so, too.
pub starts_with-append : (q p s : String) → starts_with q p ≡ true → starts_with q (p ^^ s) ≡ true
unfolding starts_with
starts_with-append String.[] p s h = refl
starts_with-append (String.◌∷◌ c q) String.[] s h = ground arith
starts_with-append (String.◌∷◌ c q) (String.◌∷◌ d p) s h =
    rw cons-append (ground (arith, starts_with-append q p s))
