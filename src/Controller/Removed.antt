-- ===== src/Controller/Removed.antt =====
-- internal/ingress/controller/controller.go: the hosts and ingresses that a new configuration does
-- not serve any more, whose metrics are then removed. `none` is a panic on a nil pointer.
pub mod Laws
use ingress_nginx.Prelude.{Option, none, some, List, [], ◌∷◌, elems, String, if◌then◌else◌}
use ingress_nginx.Api.{Ref, meta_namespace_key}
use ingress_nginx.StringSets.{StringSets}
use ingress_nginx.Types.Configuration.{Configuration}
use ingress_nginx.Types.Heap.{Heap}

module _ (S : StringSets) (H : Heap) where
  open S use {Set, empty, insert, difference, has, list}

  -- if !set.Has(key) { set.Insert(key) }
  unfoldable pub insert_new : String → Set → Set
  insert_new key s = if has s key then s else insert key s

  unfoldable pub gather_hosts : List Ref → Set → Option Set
  unfolding insert_new
  gather_hosts [] s = some s
  gather_hosts (none ∷ rs) s = none
  gather_hosts (some a ∷ rs) s = gather_hosts rs (insert_new (H.server a).hostname s)

  -- The inner loop of `getRemovedIngresses`.
  unfoldable pub gather_owners : List Ref → Set → Option Set
  unfolding insert_new meta_namespace_key
  gather_owners [] s = some s
  gather_owners (none ∷ rs) s = none
  gather_owners (some a ∷ rs) s = elim (H.location a).ingress [
    | none ↦ gather_owners rs s
    | some i ↦ gather_owners rs (insert_new (meta_namespace_key i.namespace i.name) s)
  ]

  unfoldable pub gather_ingresses : List Ref → Set → Option Set
  unfolding gather_owners
  gather_ingresses [] s = some s
  gather_ingresses (none ∷ rs) s = none
  gather_ingresses (some a ∷ rs) s = elim (gather_owners (elems (H.server a).locations) s) [
    | none ↦ none
    | some s' ↦ gather_ingresses rs s'
  ]

  -- What both functions return.
  abbrev pub listed : Option Set → Option Set → Option (List String)
  listed (some old) (some new) = some (list (difference old new))
  listed none new = none
  listed (some old) none = none

  -- `getRemovedHosts`
  unfoldable pub get_removed_hosts : Configuration → Configuration → Option (List String)
  unfolding gather_hosts
  get_removed_hosts rucfg newcfg =
      listed (gather_hosts (elems rucfg.servers) empty) (gather_hosts (elems newcfg.servers) empty)

  -- `getRemovedIngresses`
  unfoldable pub get_removed_ingresses : Configuration → Configuration → Option (List String)
  unfolding gather_ingresses
  get_removed_ingresses rucfg newcfg =
      listed (gather_ingresses (elems rucfg.servers) empty)
        (gather_ingresses (elems newcfg.servers) empty)
