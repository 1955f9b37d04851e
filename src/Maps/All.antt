-- ===== src/Maps/All.antt =====
-- Predicates on the values of a map by their keys, and the growth of a map's keys.
use ingress_nginx.Prelude.{
  some-injective, true, false, some, ◌≡◌, String, ◌==◌, string_eq, arith, eq-of-test, eq_refl,
  subst, Bool-cases, Option-cases, inl, inr,
}
use ingress_nginx.Maps.{Map, get, put, member, get-put}

module _ {ℓ κ} {V : Type ℓ} (P : String → V → Type κ) where
  -- Every entry that a lookup finds has the property.
  abbrev pub AllFound : Map V → Type (ℓ ⊔ κ)
  AllFound m = (k : String) (v : V) → get k m ≡ some v → P k v

  pub put-AllFound_but :
      (k : String) (v : V) (m : Map V)
      → P k v
      → ((j : String) (w : V) → (k == j) ≡ false → get j m ≡ some w → P j w)
      → AllFound (put k v m)
  put-AllFound_but k v m p others j w h = elim (Bool-cases (k == j)) [
    | inl same ↦
        let found = rw same at (rw (get-put k j v m) at h) in
        subst (λ i. P i w) (eq-of-test k j same) (subst (P k) (some-injective found) p)
    | inr other ↦ others j w other (rw other at (rw (get-put k j v m) at h))
  ]

  pub put-AllFound : (k : String) (v : V) (m : Map V) → P k v → AllFound m → AllFound (put k v m)
  put-AllFound k v m p all = put-AllFound_but k v m p (λ j w other. all j w)

module _ {ℓ} {V : Type ℓ} where
  -- No key of `m` is missing in `n`.
  abbrev pub KeepsKeys : Map V → Map V → Type 0
  KeepsKeys m n = (k : String) → member k m ≡ true → member k n ≡ true

  pub put-KeepsKeys : (k : String) (v : V) (m : Map V) → KeepsKeys m (put k v m)
  put-KeepsKeys k v m j h = ground (arith, get-put k j v m)

  pub put-has_key : (k : String) (v : V) (m : Map V) → member k (put k v m) ≡ true
  put-has_key k v m = ground (arith, get-put k k v m, eq_refl k)

  pub found-of-member : (k : String) (m : Map V) → member k m ≡ true → (v : V) × (get k m ≡ some v)
  found-of-member k m h = elim (Option-cases (get k m)) [
    | inl missing ↦ ground (arith, missing)
    | inr found ↦ found
  ]

  pub member-of-found : (k : String) (v : V) (m : Map V) → get k m ≡ some v → member k m ≡ true
  member-of-found k v m h = ground (arith, h)
