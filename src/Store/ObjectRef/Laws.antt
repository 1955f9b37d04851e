-- ===== src/Store/ObjectRef/Laws.antt =====
-- What the map of references stands for: a relation between objects and their consumers.
use ingress_nginx.Prelude.{
  Bool, false, not, ◌&&◌, ◌||◌, Option, none, some, List, [], ◌∷◌, ◌≡◌, ◌≢◌, refl, String, ◌==◌,
  string_eq, nat_eq, arith, if◌then◌else◌, eq-of-test, ne-of-test, eq_refl, inl, inr, Bool-cases,
  Option-cases,
}
use ingress_nginx.Maps.{
  get, put, contains, keys, HasUniqueKeys, get-put, get-of-missing, put-HasUniqueKeys,
}
use ingress_nginx.StringSets.{StringSets}
use ingress_nginx.Store.ObjectRef.{ObjectRefMap, insert_ref, insert_refs, delete_consumer}

module _ (S : StringSets) where
  open S use {
    Set, empty, insert, delete, has, len, list, has-empty, has-insert, has-delete, len-zero,
    len-nonzero, contains-list,
  }

  -- The consumer refers to the object.
  abbrev pub holds : Option Set → String → Bool
  holds none c = false
  holds (some s) c = has s c

  unfoldable pub refers : ObjectRefMap S → String → String → Bool
  refers m r c = holds (get r m) c

  abbrev pub NonEmpty : ObjectRefMap S → Type 0
  NonEmpty [] = Unit
  NonEmpty ((r, s) ∷ m) = (len s ≢ 0) × NonEmpty m

  -- Each object has one entry, and no entry is empty.
  pub record IsWellFormed (m : ObjectRefMap S) : Type 0 where
    pub unique : HasUniqueKeys m
    pub non_empty : NonEmpty m

  refers-insert_ref :
      (c : String) (r : String) (m : ObjectRefMap S) (r' c' : String)
      → refers (insert_ref S c r m) r' c' ≡ ((r == r' && c == c') || refers m r' c')
  unfolding refers insert_ref
  refers-insert_ref c r m r' c' = elim (Option-cases (get r m)) [
    | inl fresh ↦ ground (
      arith,
      get-put r r' (insert c empty) m,
      has-insert c c' empty,
      has-empty c',
      eq-of-test r r',
    )
    | inr (s, known) ↦
        ground (arith, get-put r r' (insert c s) m, has-insert c c' s, eq-of-test r r')
  ]

  -- After `Insert`, an object has a consumer exactly if it had it before, or it is one of the given
  -- objects and the consumer is the given one.
  pub refers-insert :
      (c : String) (refs : List String) (m : ObjectRefMap S) (r' c' : String)
      → refers (insert_refs S c refs m) r' c' ≡ ((contains refs r' && c == c') || refers m r' c')
  unfolding insert_refs contains
  refers-insert c [] m r' c' = refl
  refers-insert c (r ∷ refs) m r' c' =
      ground (arith, refers-insert c refs (insert_ref S c r m) r' c', refers-insert_ref c r m r' c')

  missing-delete :
      (c r : String) (m : ObjectRefMap S)
      → contains (keys m) r ≡ false
      → contains (keys (delete_consumer S c m)) r ≡ false
  unfolding contains delete_consumer
  missing-delete c r [] h = refl
  missing-delete c r ((k, s) ∷ m) h = elim (Bool-cases (len (delete c s) == 0)) [
    | inl gone ↦ rw (gone, delete_consumer) (missing-delete c r m (ground arith))
    | inr kept ↦ rw (kept, delete_consumer) (ground (arith, missing-delete c r m))
  ]

  pub missing-refers :
      (m : ObjectRefMap S) (r c : String) → contains (keys m) r ≡ false → refers m r c ≡ false
  unfolding refers
  missing-refers m r c h = rw (get-of-missing r m h)

  pub refers-cons :
      (k : String) (s : Set) (m : ObjectRefMap S) (r c : String)
      → refers ((k, s) ∷ m) r c ≡ (if k == r then has s c else refers m r c)
  unfolding refers get
  refers-cons k s m r c = ground arith

  -- After `Delete` on a map with one entry for each object and no empty entry, an object has a
  -- consumer exactly if it had it before and it is not the deleted one.
  pub refers-delete :
      (c : String) (m : ObjectRefMap S) (r' c' : String)
      → IsWellFormed m
      → refers (delete_consumer S c m) r' c' ≡ (not (c == c') && refers m r' c')
  unfolding delete_consumer
  refers-delete c [] r' c' w = unfold refers get in ground arith
  refers-delete c ((k, s) ∷ m) r' c' w =
      let later =
        refers-delete c m r' c' (record { unique = w.unique.1; non_empty = w.non_empty.1 }) in
      elim (Bool-cases (len (delete c s) == 0)) [
        | inl gone ↦
            rw (gone, delete_consumer)
              (ground (
                arith,
                later,
                refers-cons k s m r' c',
                has-delete c c' s,
                len-zero (delete c s) (eq-of-test (len (delete c s)) 0 gone) c',
                eq-of-test k r',
                missing-refers (delete_consumer S c m) k c' (missing-delete c k m w.unique.0),
              ))
        | inr kept ↦
            rw (kept, delete_consumer)
              (ground (
                arith,
                later,
                refers-cons k s m r' c',
                has-delete c c' s,
                refers-cons k (delete c s) (delete_consumer S c m) r' c',
              ))
      ]

  NonEmpty-put :
      (r : String) (s : Set) (m : ObjectRefMap S) → len s ≢ 0 → NonEmpty m → NonEmpty (put r s m)
  unfolding put
  NonEmpty-put r s [] h n = (h, tt)
  NonEmpty-put r s ((k, t) ∷ m) h n = elim (Bool-cases (k == r)) [
    | inl same ↦ rw (same, put) (h, n.1)
    | inr other ↦ rw (other, put) (n.0, NonEmpty-put r s m h n.1)
  ]

  inserted-nonempty : (c : String) (s : Set) → len (insert c s) ≢ 0
  inserted-nonempty c s h = ground (arith, len-zero (insert c s) h c, has-insert c c s, eq_refl c)

  insert_ref-IsWellFormed :
      (c r : String) (m : ObjectRefMap S) → IsWellFormed m → IsWellFormed (insert_ref S c r m)
  unfolding insert_ref
  insert_ref-IsWellFormed c r m w = elim (Option-cases (get r m)) [
    | inl fresh ↦
        rw (fresh, insert_ref)
          (record {
            unique = put-HasUniqueKeys r (insert c empty) m w.unique;
            non_empty = NonEmpty-put r (insert c empty) m (inserted-nonempty c empty) w.non_empty;
          })
    | inr (s, known) ↦
        rw (known, insert_ref)
          (record {
            unique = put-HasUniqueKeys r (insert c s) m w.unique;
            non_empty = NonEmpty-put r (insert c s) m (inserted-nonempty c s) w.non_empty;
          })
  ]

  -- `Insert` keeps the map with one entry for each object, and without an empty entry.
  pub insert-IsWellFormed :
      (c : String) (refs : List String) (m : ObjectRefMap S)
      → IsWellFormed m
      → IsWellFormed (insert_refs S c refs m)
  unfolding insert_refs
  insert-IsWellFormed c [] m w = w
  insert-IsWellFormed c (r ∷ refs) m w =
      insert-IsWellFormed c refs (insert_ref S c r m) (insert_ref-IsWellFormed c r m w)

  -- `Delete` keeps the map with one entry for each object, and without an empty entry.
  pub delete-IsWellFormed :
      (c : String) (m : ObjectRefMap S) → IsWellFormed m → IsWellFormed (delete_consumer S c m)
  unfolding delete_consumer
  delete-IsWellFormed c [] w = w
  delete-IsWellFormed c ((k, s) ∷ m) w =
      let later =
        delete-IsWellFormed c m (record { unique = w.unique.1; non_empty = w.non_empty.1 }) in
      elim (Bool-cases (len (delete c s) == 0)) [
        | inl gone ↦ rw (gone, delete_consumer) later
        | inr kept ↦
            rw (kept, delete_consumer)
              (record {
                unique = (missing-delete c k m w.unique.0, later.unique);
                non_empty = (ne-of-test (len (delete c s)) 0 kept, later.non_empty);
              })
      ]
