-- ===== src/Controller/Sync/Parts.antt =====
-- What NGINX has of a part of the configuration after requests that may fail.
use ingress_nginx.Prelude.{
  Bool, true, false, ◌≡◌, ◌⊎◌, inl, inr, refl, sym, ◌∙◌, arith, IsEquiv, Bool-cases, subst, ap,
}
use ingress_nginx.Controller.Sync.{
  DeepEqual, Reply, accepted, refused, lost, succeeds, left_with, configure_part, streams_equal,
}

-- NGINX has what it had, or the new part if that differs from the running one.
abbrev pub IsPart {ℓ} : {A : Type ℓ} → (A → A → Bool) → A → A → A → A → Type ℓ
IsPart eq running new old x = (x ≡ old) ⊎ ((eq running new ≡ false) × (x ≡ new))

module _ {ℓ} {A : Type ℓ} (eq : A → A → Bool) (running new : A) where
  configure_part-same :
      (r : Reply) (x : A) → eq running new ≡ true → configure_part eq running new r x ≡ (true, x)
  unfolding configure_part
  configure_part-same r x same = rw same refl

  configure_part-other :
      (r : Reply) (x : A)
      → eq running new ≡ false
      → configure_part eq running new r x ≡ (succeeds r, left_with r x new)
  unfolding configure_part
  configure_part-other r x other = rw other refl

  pub configure_part-accepted : (x : A) → (configure_part eq running new accepted x).0 ≡ true
  configure_part-accepted x = elim (Bool-cases (eq running new)) [
    | inl same ↦ ap (λ p. p.0) (configure_part-same accepted x same)
    | inr other ↦ ap (λ p. p.0) (configure_part-other accepted x other)
  ]

  left_with-IsPart :
      (old : A) (r : Reply) (x : A)
      → eq running new ≡ false
      → IsPart eq running new old x
      → IsPart eq running new old (left_with r x new)
  left_with-IsPart old accepted x other p = inr (other, refl)
  left_with-IsPart old refused x other p = p
  left_with-IsPart old lost x other p = inr (other, refl)

  pub configure_part-IsPart :
      (old : A) (r : Reply) (x : A)
      → IsPart eq running new old x
      → IsPart eq running new old (configure_part eq running new r x).1
  configure_part-IsPart old r x p = elim (Bool-cases (eq running new)) [
    | inl same ↦ subst (λ q. IsPart eq running new old q.1) (sym (configure_part-same r x same)) p
    | inr other ↦
        subst (λ q. IsPart eq running new old q.1) (sym (configure_part-other r x other))
          (left_with-IsPart old r x other p)
  ]

  module _ (equiv : IsEquiv eq) where
    left_with-settles : (r : Reply) (x : A) → succeeds r ≡ true → eq (left_with r x new) new ≡ true
    left_with-settles accepted x ok = equiv.reflexive new
    left_with-settles refused x ok = cc
    left_with-settles lost x ok = cc

    unsent :
        (old x : A)
        → eq old running ≡ true
        → eq running new ≡ true
        → IsPart eq running new old x
        → eq x new ≡ true
    unsent old x had same (inl kept) =
        subst (λ y. eq y new ≡ true) (sym kept) (equiv.transitive old running new had same)
    unsent old x had same (inr (other, sent)) = cc

    -- After a success NGINX has the new part, if it had the running one before.
    pub configure_part-settles :
        (old : A) (r : Reply) (x : A)
        → eq old running ≡ true
        → IsPart eq running new old x
        → (configure_part eq running new r x).0 ≡ true
        → eq (configure_part eq running new r x).1 new ≡ true
    configure_part-settles old r x had p ok = elim (Bool-cases (eq running new)) [
      | inl same ↦
          subst (λ q. eq q.1 new ≡ true) (sym (configure_part-same r x same))
            (unsent old x had same p)
      | inr other ↦
          let step = configure_part-other r x other in
          subst (λ q. eq q.1 new ≡ true) (sym step)
            (left_with-settles r x (sym (ap (λ q. q.0) step) ∙ ok))
    ]

pub streams_equal-IsEquiv : (D : DeepEqual) → IsEquiv (streams_equal D)
streams_equal-IsEquiv D = record {
  reflexive = λ (tcp, udp).
      ground (arith, D.services-IsEquiv.reflexive tcp, D.services-IsEquiv.reflexive udp);
  symmetric = λ (tcp1, udp1) (tcp2, udp2) h.
      ground
        (arith, h, D.services-IsEquiv.symmetric tcp1 tcp2, D.services-IsEquiv.symmetric udp1 udp2);
  transitive = λ (tcp1, udp1) (tcp2, udp2) (tcp3, udp3) h k. ground (
    arith,
    h,
    k,
    D.services-IsEquiv.transitive tcp1 tcp2 tcp3,
    D.services-IsEquiv.transitive udp1 udp2 udp3,
  );
}
