-- ===== src/Prelude/Tests.antt =====
-- Boolean tests: the conditional, orders and equality of the native numbers, texts and booleans.
use Prim.Native.Nat.{ℕ, compare, Ordering}
use Prim.Native.String.{String}
use mathlib.Core.Path.{◌≡◌, refl, ap}
use mathlib.Core.Logic.{◌↔◌, ◌⊎◌, ◌≢◌, inl, inr}
use mathlib.Core.Bool.{Bool, true, false, not}
use mathlib.Core.Option.{Option, none, some}
use native.Mathlib.Omega.{arith}
use text.Mathlib.Text.{◌==◌ as str_beq}
use text.Mathlib.TextEquality.{eq_iff as str_beq_iff}

abbrev pub ltb : ℕ → ℕ → Bool
ltb a b = elim (compare a b) [ Ordering.lt ↦ true | _ ↦ false ]

abbrev pub leb : ℕ → ℕ → Bool
leb a b = elim (compare a b) [ Ordering.gt ↦ false | _ ↦ true ]

abbrev pub nat_beq : ℕ → ℕ → Bool
nat_beq a b = elim (compare a b) [ Ordering.eq ↦ true | _ ↦ false ]

abbrev pub bool_beq : Bool → Bool → Bool
bool_beq true b = b
bool_beq false b = not b

infix 1 if◌then◌else◌
abbrev pub if◌then◌else◌ {ℓ} : {A : Type ℓ} → Bool → A → A → A
if true then x else y = x
if false then x else y = y

pub nat_beq_iff : (a b : ℕ) → (nat_beq a b ≡ true) ↔ (a ≡ b)
nat_beq_iff a b = ground arith

pub bool_beq_iff : (a b : Bool) → (bool_beq a b ≡ true) ↔ (a ≡ b)
bool_beq_iff a b = ground arith

-- To split on a computed value and keep the equation.
pub Bool-cases : (b : Bool) → (b ≡ true) ⊎ (b ≡ false)
Bool-cases true = inl refl
Bool-cases false = inr refl

pub some-injective {ℓ} : {A : Type ℓ} {x y : A} → some x ≡ some y → x ≡ y
some-injective h = cc

pub Option-cases {ℓ} : {A : Type ℓ} (o : Option A) → (o ≡ none) ⊎ ((a : A) × (o ≡ some a))
Option-cases none = inl refl
Option-cases (some a) = inr (a, refl)

-- Types whose `==` of Go is decided by a Boolean test.
pub record Eq {ℓ} (T : Type ℓ) : Type ℓ where
  pub equals : T → T → Bool
  pub decides : (x y : T) → (equals x y ≡ true) ↔ (x ≡ y)

infix 50 ◌==◌
abbrev pub ◌==◌ {ℓ} : {T : Type ℓ} ⦃test : Eq T⦄ → T → T → Bool
◌==◌ ⦃test⦄ x y = test.equals x y

instance abbrev pub nat_eq : Eq ℕ
nat_eq = record { equals = nat_beq; decides = nat_beq_iff }

instance abbrev pub bool_eq : Eq Bool
bool_eq = record { equals = bool_beq; decides = bool_beq_iff }

instance abbrev pub string_eq : Eq String
string_eq = record { equals = str_beq; decides = str_beq_iff }

abbrev pub option_beq {ℓ} : {A : Type ℓ} → (A → A → Bool) → Option A → Option A → Bool
option_beq eq none none = true
option_beq eq (some a) (some b) = eq a b
option_beq eq none (some b) = false
option_beq eq (some a) none = false

pub option_beq_iff {ℓ} :
    {A : Type ℓ} ⦃e : Eq A⦄ (a b : Option A) → (option_beq e.equals a b ≡ true) ↔ (a ≡ b)
option_beq_iff none none = ground arith
option_beq_iff ⦃e⦄ (some a) (some b) =
    (λ h. ap some ((e.decides a b).0 h), λ h. (e.decides a b).1 (cc))
option_beq_iff none (some b) = (λ h. cc, λ h. cc)
option_beq_iff (some a) none = (λ h. cc, λ h. cc)

instance abbrev pub option_eq {ℓ} : {A : Type ℓ} ⦃e : Eq A⦄ → Eq (Option A)
option_eq ⦃e⦄ = record { equals = option_beq e.equals; decides = option_beq_iff }

module _ {ℓ} {A : Type ℓ} ⦃e : Eq A⦄ where
  pub eq_refl : (a : A) → (a == a) ≡ true
  eq_refl a = (e.decides a a).1 refl

  pub eq-of-test : (a b : A) → (a == b) ≡ true → a ≡ b
  eq-of-test a b h = (e.decides a b).0 h

  pub test-of-eq : (a b : A) → a ≡ b → (a == b) ≡ true
  test-of-eq a b h = (e.decides a b).1 h

  pub test-of-ne : (a b : A) → a ≢ b → (a == b) ≡ false
  test-of-ne a b h = elim (Bool-cases (a == b)) [
    | inl same ↦ absurd (h (eq-of-test a b same))
    | inr other ↦ other
  ]

  pub ne-of-test : (a b : A) → (a == b) ≡ false → a ≢ b
  ne-of-test a b h p = cc (test-of-eq a b p)

-- A property of both branches.
pub if-cases {ℓ κ} :
    {A : Type ℓ} (P : A → Type κ) (b : Bool) (x y : A)
    → (b ≡ true → P x)
    → (b ≡ false → P y)
    → P (if b then x else y)
if-cases P true x y h k = h refl
if-cases P false x y h k = k refl
