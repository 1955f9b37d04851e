-- ===== src/Prelude/Comparing.antt =====
-- A comparison of the program is a row of tests, each of which may return `false`. Here it is
-- the list of those tests, and it is an equivalence relation where each of them is one.
use mathlib.Core.Path.{◌≡◌, refl, sym}
use mathlib.Core.Bool.{Bool, true, ◌&&◌}
use mathlib.Core.Logic.{◌↔◌}
use mathlib.Core.List.{List, [], ◌∷◌}
use native.Mathlib.Omega.{arith}
use ingress_nginx.Prelude.Tests.{Eq, ◌==◌, eq_refl, eq-of-test, test-of-eq}

-- `a.f != b.f` returns false.
abbrev pub on {ℓ κ} : {A : Type ℓ} {B : Type κ} ⦃e : Eq B⦄ → (A → B) → A → A → Bool
on f a b = f a == f b

-- `!a.f.Equal(b.f)` returns false.
abbrev pub via {ℓ κ} : {A : Type ℓ} {B : Type κ} → (B → B → Bool) → (A → B) → A → A → Bool
via eq f a b = eq (f a) (f b)

-- The tests in their order; what passes all of them is equal.
abbrev pub all_agree {ℓ} : {A : Type ℓ} → List (A → A → Bool) → A → A → Bool
all_agree [] a b = true
all_agree (r ∷ rs) a b = r a b && all_agree rs a b

abbrev pub AllAgree {ℓ} : {A : Type ℓ} → List (A → A → Bool) → A → A → Type 0
AllAgree [] a b = Unit
AllAgree (r ∷ rs) a b = (r a b ≡ true) × AllAgree rs a b

-- A proof that one test is passed, before those of the other tests.
infixr 40 ◌&◌
abbrev pub ◌&◌ {ℓ κ} : {A : Type ℓ} {B : Type κ} → A → B → A × B
a & b = (a, b)

pub record IsEquiv {ℓ} {A : Type ℓ} (eq : A → A → Bool) : Type ℓ where
  pub reflexive : (a : A) → eq a a ≡ true
  pub symmetric : (a b : A) → eq a b ≡ true → eq b a ≡ true
  pub transitive : (a b c : A) → eq a b ≡ true → eq b c ≡ true → eq a c ≡ true

abbrev pub IsReflexive {ℓ} : {A : Type ℓ} → (A → A → Bool) → Type ℓ
IsReflexive {A} eq = (a : A) → eq a a ≡ true

module _ {ℓ} {A : Type ℓ} where
  pub all_agree_iff :
      (rs : List (A → A → Bool)) (a b : A) → (all_agree rs a b ≡ true) ↔ AllAgree rs a b
  all_agree_iff [] a b = (λ _. tt, λ _. refl)
  all_agree_iff (r ∷ rs) a b = (
    λ h. (ground arith, (all_agree_iff rs a b).0 (ground arith)),
    λ h. ground (arith, (all_agree_iff rs a b).1 h.1),
  )

module _ {ℓ κ} {A : Type ℓ} {B : Type κ} where
  pub on-IsEquiv : ⦃e : Eq B⦄ (f : A → B) → IsEquiv (on f)
  on-IsEquiv f = record {
    reflexive = λ a. eq_refl (f a);
    symmetric = λ a b h. test-of-eq (f b) (f a) (cc (eq-of-test (f a) (f b) h));
    transitive = λ a b c h k.
        test-of-eq (f a) (f c) (cc (eq-of-test (f a) (f b) h, eq-of-test (f b) (f c) k));
  }

  pub via-IsEquiv : {eq : B → B → Bool} → IsEquiv eq → (f : A → B) → IsEquiv (via eq f)
  via-IsEquiv h f = record {
    reflexive = λ a. h.reflexive (f a);
    symmetric = λ a b. h.symmetric (f a) (f b);
    transitive = λ a b c. h.transitive (f a) (f b) (f c);
  }

module _ {ℓ} {A : Type ℓ} where
  pub agree_nil : IsEquiv {A = A} (all_agree [])
  agree_nil = record {
    reflexive = λ a. refl;
    symmetric = λ a b p. refl;
    transitive = λ a b c p q. refl;
  }

  pub agree_cons :
      (r : A → A → Bool) (rs : List (A → A → Bool))
      → IsEquiv r
      → IsEquiv (all_agree rs)
      → IsEquiv (all_agree (r ∷ rs))
  agree_cons r rs h hs = record {
    reflexive = λ a. ground (arith, h.reflexive a, hs.reflexive a);
    symmetric = λ a b p. ground (arith, h.symmetric a b, hs.symmetric a b);
    transitive = λ a b c p q. ground (arith, h.transitive a b c, hs.transitive a b c);
  }

module _ {ℓ} {A : Type ℓ} where
  pub IsReflexive-nil : IsReflexive {A = A} (all_agree [])
  IsReflexive-nil a = refl

  pub IsReflexive-cons :
      (r : A → A → Bool) (rs : List (A → A → Bool))
      → IsReflexive r
      → IsReflexive (all_agree rs)
      → IsReflexive (all_agree (r ∷ rs))
  IsReflexive-cons r rs h hs a = ground (arith, h a, hs a)

pub ruleset equiv_rules = (agree_nil, agree_cons, on-IsEquiv, via-IsEquiv)

module _ {ℓ} {A : Type ℓ} where
  pub IsReflexive-of_equiv : {r : A → A → Bool} → IsEquiv r → IsReflexive r
  IsReflexive-of_equiv h = h.reflexive

pub ruleset reflexive_rules = (IsReflexive-nil, IsReflexive-cons, IsReflexive-of_equiv)

-- A comparison that accepts two values in both orders if in one.
pub record SymmetricAt {ℓ} {A : Type ℓ} (r : A → A → Bool) (a b : A) : Type 0 where
  pub flip : r a b ≡ true → r b a ≡ true

module _ {ℓ} {A : Type ℓ} where
  pub symmetric_nil : {a b : A} → SymmetricAt (all_agree []) a b
  symmetric_nil = record { flip = λ h. refl }

  pub symmetric_cons :
      (r : A → A → Bool) (rs : List (A → A → Bool)) {a b : A}
      → SymmetricAt r a b
      → SymmetricAt (all_agree rs) a b
      → SymmetricAt (all_agree (r ∷ rs)) a b
  symmetric_cons r rs h hs = record { flip = λ p. ground (arith, h.flip, hs.flip) }

  pub symmetric_of_equiv : {r : A → A → Bool} {a b : A} → IsEquiv r → SymmetricAt r a b
  symmetric_of_equiv {a} {b} h = record { flip = h.symmetric a b }

  -- A test of the sizes before the test `r`.
  pub symmetric_sized {κ} :
      {N : Type κ} ⦃e : Eq N⦄ (f : A → N) (r : A → A → Bool) (rs : List (A → A → Bool)) {a b : A}
      → (f a ≡ f b → r a b ≡ true → r b a ≡ true)
      → SymmetricAt (all_agree rs) a b
      → SymmetricAt (all_agree (on f ∷ r ∷ rs)) a b
  symmetric_sized f r rs {a} {b} h hs = record {
    flip = λ p. ground (
      arith,
      h (eq-of-test (f a) (f b) (ground arith)) (ground arith),
      hs.flip,
      test-of-eq (f b) (f a) (sym (eq-of-test (f a) (f b) (ground arith))),
    );
  }

pub ruleset symmetric_rules = (symmetric_nil, symmetric_of_equiv, symmetric_cons)
