-- ===== src/Controller/Removed/Laws.antt =====
-- The removed hosts and ingresses are exactly those of the old configuration that are not of the new.
use ingress_nginx.Prelude.{
  not, ◌&&◌, ◌||◌, Option, none, some, List, [], ◌∷◌, ◌++◌, elems, String, ◌==◌, string_eq, ◌≡◌,
  refl, arith, Option-cases, inl, inr, eq-of-test,
}
use ingress_nginx.Api.{Ref, meta_namespace_key}
use ingress_nginx.Maps.{contains, contains-append}
use ingress_nginx.StringSets.{StringSets}
use ingress_nginx.Types.Configuration.{Configuration}
use ingress_nginx.Types.Heap.{Heap}
use ingress_nginx.Controller.Removed.{
  insert_new, gather_hosts, gather_owners, gather_ingresses, get_removed_hosts,
  get_removed_ingresses, listed,
}

module _ (H : Heap) where
  -- The host names of the servers.
  unfoldable pub hosts : List Ref → List String
  hosts [] = []
  hosts (none ∷ rs) = hosts rs
  hosts (some a ∷ rs) = (H.server a).hostname ∷ hosts rs

  -- The keys of the ingresses of the locations, and those of the locations of the servers.
  unfoldable pub owners : List Ref → List String
  owners [] = []
  owners (none ∷ rs) = owners rs
  owners (some a ∷ rs) = elim (H.location a).ingress [
    | none ↦ owners rs
    | some i ↦ meta_namespace_key i.namespace i.name ∷ owners rs
  ]

  unfoldable pub served_ingresses : List Ref → List String
  unfolding owners
  served_ingresses [] = []
  served_ingresses (none ∷ rs) = served_ingresses rs
  served_ingresses (some a ∷ rs) = owners (elems (H.server a).locations) ++ served_ingresses rs

  -- No pointer is nil.
  abbrev pub NoNil : List Ref → Type 0
  NoNil [] = Unit
  NoNil (none ∷ rs) = ⊥
  NoNil (some a ∷ rs) = NoNil rs

  -- Nor is one in the servers.
  abbrev pub NoNilLocations : List Ref → Type 0
  NoNilLocations [] = Unit
  NoNilLocations (none ∷ rs) = ⊥
  NoNilLocations (some a ∷ rs) = NoNil (elems (H.server a).locations) × NoNilLocations rs

  module _ (S : StringSets) where
    open S use {
      Set, empty, insert, difference, has, list, has-insert, has-empty, has-difference,
      contains-list,
    }

    has-insert_new :
        (key x : String) (s : Set) → has (insert_new S H key s) x ≡ (key == x || has s x)
    unfolding insert_new
    has-insert_new key x s = ground (arith, has-insert key x s, eq-of-test key x)

    -- A set with the elements of another one and the given keys.
    abbrev Gathers : List String → Set → Option Set → Type 0
    Gathers ks s o =
        (s' : Set) × ((o ≡ some s') × ((x : String) → has s' x ≡ (contains ks x || has s x)))

    gather_hosts-Gathers :
        (rs : List Ref) (s : Set) → NoNil rs → Gathers (hosts rs) s (gather_hosts S H rs s)
    unfolding gather_hosts hosts contains
    gather_hosts-Gathers [] s n = (s, (refl, λ x. refl))
    gather_hosts-Gathers (none ∷ rs) s n = absurd n
    gather_hosts-Gathers (some a ∷ rs) s n =
        let key = (H.server a).hostname in
        let rest = gather_hosts-Gathers rs (insert_new S H key s) n in
        (rest.0, (rest.1.0, λ x. ground (arith, rest.1.1 x, has-insert_new key x s)))

    gather_owners-Gathers :
        (rs : List Ref) (s : Set) → NoNil rs → Gathers (owners rs) s (gather_owners S H rs s)
    unfolding gather_owners owners contains
    gather_owners-Gathers [] s n = (s, (refl, λ x. refl))
    gather_owners-Gathers (none ∷ rs) s n = absurd n
    gather_owners-Gathers (some a ∷ rs) s n = elim (Option-cases (H.location a).ingress) [
      | inl free ↦ rw (free, owners) (rw (free, gather_owners) (gather_owners-Gathers rs s n))
      | inr (i, owned) ↦
          let key = meta_namespace_key i.namespace i.name in
          let rest = gather_owners-Gathers rs (insert_new S H key s) n in
          rw (owned, owners)
            (rw (owned, gather_owners)
              (rest.0, (rest.1.0, λ x. ground (arith, rest.1.1 x, has-insert_new key x s))))
    ]

    gather_ingresses-Gathers :
        (rs : List Ref) (s : Set)
        → NoNilLocations rs
        → Gathers (served_ingresses rs) s (gather_ingresses S H rs s)
    unfolding gather_ingresses served_ingresses contains
    gather_ingresses-Gathers [] s n = (s, (refl, λ x. refl))
    gather_ingresses-Gathers (none ∷ rs) s n = absurd n
    gather_ingresses-Gathers (some a ∷ rs) s (n, ns) =
        let first = gather_owners-Gathers (elems (H.server a).locations) s n in
        let rest = gather_ingresses-Gathers rs first.0 ns in
        (
          rest.0,
          (
            ground (arith, first.1.0, rest.1.0),
            λ x. ground (
              arith,
              rest.1.1 x,
              first.1.1 x,
              contains-append (owners (elems (H.server a).locations)) (served_ingresses rs) x,
            ),
          ),
        )

    -- A result lists the elements of one list that are not in another.
    abbrev pub ListsRemoved : List String → List String → Option (List String) → Type 0
    ListsRemoved olds news o =
        (ks : List String) × ((o ≡ some ks)
          × ((x : String) → contains ks x ≡ (contains olds x && not (contains news x))))

    listed-ListsRemoved :
        (olds news : List String) (o n : Option Set)
        → Gathers olds empty o
        → Gathers news empty n
        → ListsRemoved olds news (listed S H o n)
    listed-ListsRemoved olds news o n (s, (so, all_s)) (t, (tn, all_t)) = (
      list (difference s t),
      (
        rw (so, listed) (rw (tn, listed) refl),
        λ x. ground (
          arith,
          contains-list (difference s t) x,
          has-difference s t x,
          all_s x,
          all_t x,
          has-empty x,
        ),
      ),
    )

    -- If no server is a nil pointer, `getRemovedHosts` returns exactly the host names of the servers
    -- of the first configuration that no server of the second one has.
    pub get_removed_hosts_exact :
        (rucfg newcfg : Configuration)
        → NoNil (elems rucfg.servers)
        → NoNil (elems newcfg.servers)
        → ListsRemoved
            (hosts (elems rucfg.servers))
            (hosts (elems newcfg.servers))
            (get_removed_hosts S H rucfg newcfg)
    unfolding get_removed_hosts
    get_removed_hosts_exact rucfg newcfg old new =
        listed-ListsRemoved (hosts (elems rucfg.servers)) (hosts (elems newcfg.servers))
          (gather_hosts S H (elems rucfg.servers) empty)
          (gather_hosts S H (elems newcfg.servers) empty)
          (gather_hosts-Gathers (elems rucfg.servers) empty old)
          (gather_hosts-Gathers (elems newcfg.servers) empty new)

    -- If no server and no location is a nil pointer, `getRemovedIngresses` returns exactly the keys
    -- of the ingresses of locations of the first configuration that are not those of a location of
    -- the second one.
    pub get_removed_ingresses_exact :
        (rucfg newcfg : Configuration)
        → NoNilLocations (elems rucfg.servers)
        → NoNilLocations (elems newcfg.servers)
        → ListsRemoved
            (served_ingresses (elems rucfg.servers))
            (served_ingresses (elems newcfg.servers))
            (get_removed_ingresses S H rucfg newcfg)
    unfolding get_removed_ingresses
    get_removed_ingresses_exact rucfg newcfg old new =
        listed-ListsRemoved (served_ingresses (elems rucfg.servers))
          (served_ingresses (elems newcfg.servers))
          (gather_ingresses S H (elems rucfg.servers) empty)
          (gather_ingresses S H (elems newcfg.servers) empty)
          (gather_ingresses-Gathers (elems rucfg.servers) empty old)
          (gather_ingresses-Gathers (elems newcfg.servers) empty new)
