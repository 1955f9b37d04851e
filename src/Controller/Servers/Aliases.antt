-- ===== src/Controller/Servers/Aliases.antt =====
-- The aliases that createServers leaves: none of them is the host of a server.
use ingress_nginx.Prelude.{
  true, false, none, some, List, [], ◌∷◌, Slice, elems, String, ◌==◌, string_eq, ◌≡◌, refl, arith,
  Option-cases, inl, inr, ◌⊎◌, eq-of-test,
}
use ingress_nginx.Maps.{Map, get, put, member, contains, get-put}
use ingress_nginx.Maps.All.{AllFound, put-AllFound_but}
use ingress_nginx.StringSets.{StringSets}
use ingress_nginx.Controller.Servers.{Site}
use ingress_nginx.Controller.Servers.Configure.{unique_aliases, set_host_aliases, set_aliases}
use ingress_nginx.Controller.Servers.Rooted.{Holding, Grown, Grown-refl, Grown-trans, put-Grown}

-- No alias of the server is the host of a server.
abbrev pub AvoidsHosts : Map Site → Site → Type 0
AvoidsHosts m s = (x : String) → contains (elems s.server.aliases) x ≡ true → member x m ≡ false

-- The same hosts have servers.
abbrev HasSameHosts : Map Site → Map Site → Type 0
HasSameHosts m n = (k : String) → member k n ≡ member k m

-- What is known of the servers of `m` while the aliases of `left` are to be set.
abbrev pub Avoiding : Map (Slice String) → Map Site → Type 0
Avoiding left m = AllFound (λ k s. AvoidsHosts m s ⊎ (member k left ≡ true)) m

module _ (S : StringSets) where
  open S use {Set, empty, insert, has, list, has-empty, has-insert, contains-list}

  unique_aliases-avoid :
      (host : String) (m : Map Site) (as' : List String) (seen : Set)
      → ((x : String) → has seen x ≡ true → member x m ≡ false)
      → (x : String) → has (unique_aliases S host m as' seen) x ≡ true
      → member x m ≡ false
  unfolding unique_aliases
  unique_aliases-avoid host m [] seen clear x h = clear x h
  unique_aliases-avoid host m (a ∷ as') seen clear x h =
      unique_aliases-avoid host m as' _
        (λ y k. ground (arith, clear y, has-insert a y seen, eq-of-test a y, k)) x h

  -- The server with these aliases.
  realiased : String → Map Site → Slice String → Site → Site
  realiased host m as' site = record site {
    server = record site.server {
      aliases = some (list (unique_aliases S host m (elems as') empty));
    };
  }

  realiased-AvoidsHosts :
      (host : String) (m : Map Site) (as' : Slice String) (site : Site)
      → AvoidsHosts m (realiased host m as' site)
  unfolding realiased
  realiased-AvoidsHosts host m as' site x h =
      unique_aliases-avoid host m (elems as') empty (λ y k. ground (arith, has-empty y, k)) x
        (ground (arith, contains-list (unique_aliases S host m (elems as') empty) x, h))

  set_host_aliases-found :
      (host : String) (m : Map Site) (as' : Slice String) (site : Site)
      → get host m ≡ some site
      → set_host_aliases S host as' m ≡ put host (realiased host m as' site) m
  unfolding set_host_aliases realiased
  set_host_aliases-found host m as' site h = ground (arith, h)

  set_host_aliases-missing :
      (host : String) (m : Map Site) (as' : Slice String)
      → get host m ≡ none
      → set_host_aliases S host as' m ≡ m
  unfolding set_host_aliases
  set_host_aliases-missing host m as' h = ground (arith, h)

  AvoidsHosts-same :
      (m n : Map Site) → HasSameHosts m n → (s : Site) → AvoidsHosts m s → AvoidsHosts n s
  AvoidsHosts-same m n same s h x k = ground (arith, same x, h x, k)

  set_host_aliases-same :
      (host : String) (as' : Slice String) (m : Map Site)
      → HasSameHosts m (set_host_aliases S host as' m)
  set_host_aliases-same host as' m k = elim (Option-cases (get host m)) [
    | inl missing ↦ rw (set_host_aliases-missing host m as' missing) refl
    | inr found ↦ rw (set_host_aliases-found host m as' found.0 found.1) (
        ground (arith, get-put host k (realiased host m as' found.0) m, eq-of-test host k, found.1))
  ]

  -- A server that the head of the aliases does not concern.
  passed :
      (host k : String) (as' : Slice String) (left : Map (Slice String)) (m n : Map Site) (s : Site)
      → HasSameHosts m n
      → (host == k) ≡ false
      → AvoidsHosts m s ⊎ (member k ((host, as') ∷ left) ≡ true)
      → AvoidsHosts n s ⊎ (member k left ≡ true)
  unfolding get
  passed host k as' left m n s same other (inl clear) = inl (AvoidsHosts-same m n same s clear)
  passed host k as' left m n s same other (inr listed) = inr (ground (arith, other, listed))

  set_host_aliases-Avoiding :
      (host : String) (as' : Slice String) (left : Map (Slice String)) (m : Map Site)
      → Avoiding ((host, as') ∷ left) m
      → Avoiding left (set_host_aliases S host as' m)
  set_host_aliases-Avoiding host as' left m known = elim (Option-cases (get host m)) [
    | inl missing ↦ rw (set_host_aliases-missing host m as' missing) (λ k s h.
        passed host k as' left m m s (λ j. refl) (ground (arith, eq-of-test host k, missing, h))
          (known k s h))
    | inr found ↦
        let site = realiased host m as' found.0 in
        let same : HasSameHosts m (put host site m) =
          λ k. ground (arith, get-put host k site m, eq-of-test host k, found.1) in
        rw (set_host_aliases-found host m as' found.0 found.1) (
          put-AllFound_but (λ k s. AvoidsHosts (put host site m) s ⊎ (member k left ≡ true)) host
            site m
            (inl (
              AvoidsHosts-same m (put host site m) same site
                (realiased-AvoidsHosts host m as' found.0)))
            (λ k s other h. passed host k as' left m (put host site m) s same other (known k s h)))
  ]

  pub set_aliases-AvoidsHosts :
      (all : Map (Slice String)) (m : Map Site)
      → Avoiding all m
      → AllFound (λ k s. AvoidsHosts (set_aliases S all m) s) (set_aliases S all m)
  unfolding set_aliases get
  set_aliases-AvoidsHosts [] m known =
      λ k s h. elim (known k s h) [ inl clear ↦ clear | inr listed ↦ ground (arith, listed) ]
  set_aliases-AvoidsHosts ((host, as') ∷ all) m known =
      set_aliases-AvoidsHosts all (set_host_aliases S host as' m)
        (set_host_aliases-Avoiding host as' all m known)

  -- A property that does not look at the aliases stays.
  module _ (P : String → Site → Type 0)
      (blind : (k : String) (s : Site) (as' : Slice String)
        → P k s
        → P k (record s { server = record s.server { aliases = as' } })) where
    set_host_aliases-Grown :
        (host : String) (as' : Slice String) (m : Map Site)
        → Holding P m
        → Grown P m (set_host_aliases S host as' m)
    unfolding realiased
    set_host_aliases-Grown host as' m held = elim (Option-cases (get host m)) [
      | inl missing ↦ rw (set_host_aliases-missing host m as' missing) (Grown-refl P m held)
      | inr found ↦ rw (set_host_aliases-found host m as' found.0 found.1) (
          put-Grown P host (realiased host m as' found.0) m held
            (blind host found.0 _ (held.0 host found.0 found.1)))
    ]

    pub set_aliases-Grown :
        (all : Map (Slice String)) (m : Map Site) → Holding P m → Grown P m (set_aliases S all m)
    unfolding set_aliases
    set_aliases-Grown [] m held = Grown-refl P m held
    set_aliases-Grown ((host, as') ∷ all) m held =
        let next = set_host_aliases S host as' m in
        let one = set_host_aliases-Grown host as' m held in
        Grown-trans P m next (set_aliases S all next) one (set_aliases-Grown all next one.0)
