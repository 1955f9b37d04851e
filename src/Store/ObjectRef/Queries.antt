-- ===== src/Store/ObjectRef/Queries.antt =====
-- What the queries of the map of references return.
use ingress_nginx.Prelude.{
  true, [], ◌∷◌, ◌≡◌, ◌↔◌, refl, String, ◌==◌, string_eq, nat_eq, arith, eq-of-test, eq_refl, inl,
  inr, Bool-cases, Option-cases,
}
use ingress_nginx.Maps.{get, contains, HasUniqueKeys}
use ingress_nginx.StringSets.{StringSets}
use ingress_nginx.Store.ObjectRef.{ObjectRefMap, has_ref, has_consumer, reference, referenced_by}
use ingress_nginx.Store.ObjectRef.Laws.{refers, IsWellFormed, NonEmpty, refers-cons, missing-refers}

module _ (S : StringSets) where
  open S use {
    Set, empty, insert, delete, has, len, list, has-empty, has-insert, has-delete, len-zero,
    len-nonzero, contains-list,
  }

  -- `Reference` lists exactly the consumers of the object.
  pub reference_exact :
      (r : String) (m : ObjectRefMap S) (c : String) → contains (reference S r m) c ≡ refers S m r c
  unfolding reference refers contains
  reference_exact r m c = elim (Option-cases (get r m)) [
    | inl fresh ↦ ground arith
    | inr (s, known) ↦ ground (arith, contains-list s c)
  ]

  -- Of a map with one entry for each object and no empty entry, `ReferencedBy` lists exactly the
  -- objects that have the consumer.
  pub referenced_by_exact :
      (c : String) (m : ObjectRefMap S) (r : String)
      → IsWellFormed S m
      → contains (referenced_by S c m) r ≡ refers S m r c
  unfolding referenced_by contains
  referenced_by_exact c [] r w = unfold refers get in refl
  referenced_by_exact c ((k, s) ∷ m) r w =
      let later =
        referenced_by_exact c m r (record { unique = w.unique.1; non_empty = w.non_empty.1 }) in
      ground
        (arith, later, refers-cons S k s m r c, eq-of-test k r, missing-refers S m k c w.unique.0)

  has_consumer-of-refers :
      (c : String) (m : ObjectRefMap S) (r : String)
      → refers S m r c ≡ true
      → has_consumer S c m ≡ true
  unfolding has_consumer
  has_consumer-of-refers c [] r h = absurd (unfold refers get in cc)
  has_consumer-of-refers c ((k, s) ∷ m) r h =
      ground (arith, refers-cons S k s m r c, has_consumer-of-refers c m r)

  refers-of-has_consumer :
      (c : String) (m : ObjectRefMap S)
      → HasUniqueKeys m
      → has_consumer S c m ≡ true
      → (r : String) × (refers S m r c ≡ true)
  unfolding has_consumer
  refers-of-has_consumer c [] u h = cc
  refers-of-has_consumer c ((k, s) ∷ m) u h = elim (Bool-cases (has s c)) [
    | inl here ↦ (k, ground (arith, refers-cons S k s m k c, eq_refl k))
    | inr away ↦
        let (r, found) = refers-of-has_consumer c m u.1 (ground arith) in
        (r, ground (arith, refers-cons S k s m r c, eq-of-test k r, missing-refers S m k c u.0))
  ]

  -- Of a map with one entry for each object and no empty entry, `HasConsumer` holds exactly of the
  -- consumers of some object.
  pub has_consumer_iff :
      (c : String) (m : ObjectRefMap S)
      → IsWellFormed S m
      → (has_consumer S c m ≡ true) ↔ ((r : String) × (refers S m r c ≡ true))
  has_consumer_iff c m w =
      (refers-of-has_consumer c m w.unique, λ (r, h). has_consumer-of-refers c m r h)

  refers-of-has_ref :
      (r : String) (m : ObjectRefMap S)
      → NonEmpty S m
      → has_ref S r m ≡ true
      → (c : String) × (refers S m r c ≡ true)
  unfolding has_ref refers get
  refers-of-has_ref r [] n h = cc
  refers-of-has_ref r ((k, s) ∷ m) n h = elim (Bool-cases (k == r)) [
    | inl same ↦ let (c, found) = len-nonzero s n.0 in (c, ground arith)
    | inr other ↦ let (c, found) = refers-of-has_ref r m n.1 (ground arith) in (c, ground arith)
  ]

  -- Of a map with one entry for each object and no empty entry, `Has` holds exactly of the objects
  -- that have a consumer.
  pub has_ref_iff :
      (r : String) (m : ObjectRefMap S)
      → IsWellFormed S m
      → (has_ref S r m ≡ true) ↔ ((c : String) × (refers S m r c ≡ true))
  unfolding has_ref refers
  has_ref_iff r m w = (
    refers-of-has_ref r m w.non_empty,
    λ (c, h). elim (Option-cases (get r m)) [
      | inl fresh ↦ ground arith
      | inr (s, known) ↦ ground arith
    ],
  )
