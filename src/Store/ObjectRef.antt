-- ===== src/Store/ObjectRef.antt =====
-- internal/ingress/controller/store/objectref.go: which objects (ingresses) refer to which
-- (secrets). The methods hold a lock throughout, so that each is one step; the order in which they
-- walk the map is that of the entries.
pub mod Laws
pub mod Queries
use ingress_nginx.Prelude.{
  ℕ, Bool, true, false, none, some, List, [], ◌∷◌, String, ◌==◌, nat_eq, length, if◌then◌else◌,
}
use ingress_nginx.Maps.{Map, get, put}
use ingress_nginx.StringSets.{StringSets}

module _ (S : StringSets) where
  open S use {Set, empty, insert, delete, has, len, list}

  -- `objectRefMap`, its field `v`.
  abbrev pub ObjectRefMap : Type 0
  ObjectRefMap = Map Set

  abbrev pub new_object_ref_map : ObjectRefMap
  new_object_ref_map = []

  -- One round of the loop of `Insert`.
  unfoldable pub insert_ref : String → String → ObjectRefMap → ObjectRefMap
  unfolding get put
  insert_ref consumer r m = elim (get r m) [
    | none ↦ put r (insert consumer empty) m
    | some consumers ↦ put r (insert consumer consumers) m
  ]

  unfoldable pub insert_refs : String → List String → ObjectRefMap → ObjectRefMap
  unfolding insert_ref
  insert_refs consumer [] m = m
  insert_refs consumer (r ∷ ref) m = insert_refs consumer ref (insert_ref consumer r m)

  -- `Delete`
  unfoldable pub delete_consumer : String → ObjectRefMap → ObjectRefMap
  delete_consumer consumer [] = []
  delete_consumer consumer ((ref, consumers) ∷ m) =
      let left = delete consumer consumers in
      if len left == 0 then delete_consumer consumer m else (ref, left) ∷ delete_consumer consumer m

  -- `Len`
  unfoldable pub len_refs : ObjectRefMap → ℕ
  len_refs m = length m

  -- `Has`
  unfoldable pub has_ref : String → ObjectRefMap → Bool
  unfolding get
  has_ref ref m = elim (get ref m) [ none ↦ false | some consumers ↦ true ]

  unfoldable pub has_consumer : String → ObjectRefMap → Bool
  has_consumer consumer [] = false
  has_consumer consumer ((ref, consumers) ∷ m) =
      if has consumers consumer then true else has_consumer consumer m

  unfoldable pub reference : String → ObjectRefMap → List String
  unfolding get
  reference ref m = elim (get ref m) [ none ↦ [] | some consumers ↦ list consumers ]

  unfoldable pub referenced_by : String → ObjectRefMap → List String
  referenced_by consumer [] = []
  referenced_by consumer ((ref, consumers) ∷ m) =
      if has consumers consumer then ref ∷ referenced_by consumer m else referenced_by consumer m
