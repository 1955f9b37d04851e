-- ===== src/Panics.antt =====
-- Code that may panic: `none` is the panic. `Ends Q o P` says that the code ends with `P` of its result,
-- or, where `Q` holds, by a panic: with `⊥` for `Q` it returns.
use ingress_nginx.Prelude.{
  some-injective, Bool, true, false, if◌then◌else◌, Option, none, some, ◌≡◌, refl, sym, subst,
}

infixl 5 ◌>>=◌
abbrev pub ◌>>=◌ {ℓ κ} : {A : Type ℓ} {B : Type κ} → Option A → (A → Option B) → Option B
some a >>= f = f a
none >>= f = none

module _ {κ} (Q : Type κ) where
  abbrev pub Ends {ℓ} : {A : Type ℓ} → Option A → (A → Type κ) → Type κ
  Ends (some a) P = P a
  Ends none P = Q

  pub Ends-bind {ℓ μ} :
      {A : Type ℓ} {B : Type μ} (m : Option A) (f : A → Option B) (P : A → Type κ) (R : B → Type κ)
      → Ends m P
      → ((a : A) → P a → Ends (f a) R)
      → Ends (m >>= f) R
  Ends-bind (some a) f P R h k = k a h
  Ends-bind none f P R h k = h

  pub Ends-found {ℓ} :
      {A : Type ℓ} (m : Option A) (P : A → Type κ) (a : A) → Ends m P → m ≡ some a → P a
  Ends-found (some b) P a h e = subst P (some-injective e) h
  Ends-found none P a h e = cc

  pub Ends-weaken {ℓ} :
      {A : Type ℓ} (m : Option A) (P R : A → Type κ) → Ends m P → ((a : A) → P a → R a) → Ends m R
  Ends-weaken (some a) P R h k = k a h
  Ends-weaken none P R h k = h

  pub Ends-of {ℓ} :
      {A : Type ℓ} (m : Option A) (P : A → Type κ) (a : A) → m ≡ some a → P a → Ends m P
  Ends-of m P a e p = subst (λ o. Ends o P) (sym e) p

  pub Ends-if {ℓ} :
      {A : Type ℓ} (b : Bool) (m n : Option A) (P : A → Type κ)
      → (b ≡ true → Ends m P)
      → (b ≡ false → Ends n P)
      → Ends (if b then m else n) P
  Ends-if true m n P h k = h refl
  Ends-if false m n P h k = k refl

-- Code that does not panic returns.
pub Ends-returns {ℓ} :
    {A : Type ℓ} (m : Option A) (P : A → Type 0) → Ends ⊥ m P → (a : A) × (m ≡ some a) × P a
Ends-returns (some a) P h = (a, refl, h)
Ends-returns none P h = absurd h

pub Ends-sure {ℓ} :
    {A : Type ℓ} (Q : Type 0) (m : Option A) (P : A → Type 0) → Ends ⊥ m P → Ends Q m P
Ends-sure Q (some a) P h = h
Ends-sure Q none P h = absurd h
