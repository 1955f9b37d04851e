-- ===== src/Tests/References.antt =====
-- Runs of the map of references, with sets as lists.
use ingress_nginx.Prelude.{[], ◌∷◌, false, not, ◌&&◌, ◌||◌, ◌≡◌, refl, String, ◌==◌, string_eq}
use ingress_nginx.Maps.{contains}
use ingress_nginx.StringSets.{list_sets, add, drop_all}
use ingress_nginx.Store.ObjectRef.{
  ObjectRefMap, insert_refs, delete_consumer, len_refs, has_ref, reference,
}
use ingress_nginx.Store.ObjectRef.Laws.{
  IsWellFormed, refers, refers-insert, refers-delete, insert-IsWellFormed, delete-IsWellFormed,
}

abbrev refs : ObjectRefMap list_sets
refs = ("tls", "a" ∷ "b" ∷ []) ∷ ("auth", "a" ∷ []) ∷ []

built :
    insert_refs list_sets "a" ("tls" ∷ "auth" ∷ []) (insert_refs list_sets "b" ("tls" ∷ []) [])
    ≡ refs
unfolding insert_refs add contains
built = refl

refs-IsWellFormed : IsWellFormed list_sets refs
unfolding contains
refs-IsWellFormed = record { unique = (refl, (refl, tt)); non_empty = (λ h. cc h, (λ h. cc h, tt)) }

refers-insert_example :
    refers list_sets (insert_refs list_sets "c" ("auth" ∷ []) refs) "auth" "c" ≡ (
      (contains ("auth" ∷ []) "auth" && ◌==◌ {T = String} "c" "c")
      || refers list_sets refs "auth" "c")
refers-insert_example = refers-insert list_sets "c" ("auth" ∷ []) refs "auth" "c"

refers-delete_example :
    refers list_sets (delete_consumer list_sets "a" refs) "tls" "b"
    ≡ (not (◌==◌ {T = String} "a" "b") && refers list_sets refs "tls" "b")
refers-delete_example = refers-delete list_sets "a" refs "tls" "b" refs-IsWellFormed

insert-IsWellFormed_example : IsWellFormed list_sets (insert_refs list_sets "c" ("auth" ∷ []) refs)
insert-IsWellFormed_example = insert-IsWellFormed list_sets "c" ("auth" ∷ []) refs refs-IsWellFormed

delete-IsWellFormed_example : IsWellFormed list_sets (delete_consumer list_sets "a" refs)
delete-IsWellFormed_example = delete-IsWellFormed list_sets "a" refs refs-IsWellFormed

reference_tests :
    (len_refs list_sets (delete_consumer list_sets "a" refs) ≡ 1)
    × (reference list_sets "tls" (delete_consumer list_sets "a" refs) ≡ "b" ∷ [])
    × (has_ref list_sets "auth" (delete_consumer list_sets "a" refs) ≡ false)
unfolding drop_all len_refs delete_consumer reference has_ref
reference_tests = (refl, refl, refl)
