-- ===== src/Controller/Upstreams/Merging/Keeps.antt =====
-- The merge of a whole ingress adds no upstream and changes no field but the alternatives.
use ingress_nginx.Prelude.{
  Bool, false, not, ◌&&◌, Option, none, some, List, [], ◌∷◌, String, ◌==◌, string_eq, ◌≡◌, refl,
  inl, inr, arith, Bool-cases, Option-cases,
}
use ingress_nginx.Api.{HttpPath, Rule}
use ingress_nginx.Maps.{Map, get, remove, get-remove}
use ingress_nginx.Types.Backend.{Backend}
use ingress_nginx.Types.Ingress.{Ingress}
use ingress_nginx.Types.Location.{Location}
use ingress_nginx.Controller.Upstreams.{name_for}
use ingress_nginx.Controller.Upstreams.Merging.{
  Merge, merge_locations, settle, merge_default, merge_path, merge_paths, merge_rules,
  merge_alternative_backends, any_location, same_path, merge_and_settle, def_server_name,
}
use ingress_nginx.Controller.Upstreams.Merging.Laws.{
  IsGrown, IsGrown-refl, IsGrown-trans, Step, merge_locations-Step,
}

-- The upstream under a key before and after: it may be gone.
abbrev pub Kept : Option Backend → Option Backend → Type 0
Kept o none = Unit
Kept (some u) (some v) = IsGrown u v
Kept none (some v) = ⊥

Kept-of-Step : (o p : Option Backend) → Step o p → Kept o p
Kept-of-Step none none s = tt
Kept-of-Step (some u) (some v) s = s
Kept-of-Step (some u) none s = tt
Kept-of-Step none (some v) s = s

Kept-refl : (o : Option Backend) → Kept o o
Kept-refl none = tt
Kept-refl (some u) = IsGrown-refl u

Kept-trans : (o p q : Option Backend) → Kept o p → Kept p q → Kept o q
Kept-trans o p none g h = tt
Kept-trans (some u) (some v) (some w) g h = IsGrown-trans u v w g h
Kept-trans none (some v) (some w) g h = g
Kept-trans (some u) none (some w) g h = absurd h
Kept-trans none none (some w) g h = h

-- The same of all keys.
abbrev pub KeepsAll : Map Backend → Map Backend → Type 0
KeepsAll m m' = (k : String) → Kept (get k m) (get k m')

KeepsAll-trans : (m n o : Map Backend) → KeepsAll m n → KeepsAll n o → KeepsAll m o
KeepsAll-trans m n o g h k = Kept-trans (get k m) (get k n) (get k o) (g k) (h k)

remove-KeepsAll : (k : String) (m : Map Backend) → KeepsAll m (remove k m)
remove-KeepsAll k m j = rw (get-remove k j m) (elim (Bool-cases (k == j)) [
  | inl same ↦ rw same tt
  | inr other ↦ rw other (Kept-refl (get j m))
])

settle-KeepsAll : (alt : Backend) (r : Merge) → KeepsAll r.upstreams (settle alt r)
unfolding settle
settle-KeepsAll alt r = elim (Bool-cases (not r.alt_equals_pri && not r.merged)) [
  | inl unmerged ↦ rw unmerged (remove-KeepsAll alt.name r.upstreams)
  | inr done ↦ rw done (λ k. Kept-refl (get k r.upstreams))
]

merge_and_settle-KeepsAll :
    (wanted : Location → Option Bool) (alt : Backend) (ls : List Location) (m m' : Map Backend)
    → merge_and_settle wanted alt ls m ≡ some m'
    → KeepsAll m m'
unfolding merge_and_settle
merge_and_settle-KeepsAll wanted alt ls m m' h =
    elim (Option-cases (merge_locations wanted alt ls false m)) [
      | inl panics ↦ ground arith
      | inr (r, ran) ↦
          let end : settle alt r ≡ m' = ground arith in
          rw (← end) (
            KeepsAll-trans m r.upstreams (settle alt r)
              (λ k.
                Kept-of-Step (get k m) (get k r.upstreams)
                  (merge_locations-Step wanted alt ls false m r ran k))
              (settle-KeepsAll alt r))
    ]

same-KeepsAll : (m m' : Map Backend) → m ≡ m' → KeepsAll m m'
same-KeepsAll m m' h k = rw (← h) (Kept-refl (get k m))

merge_default-KeepsAll :
    (ing : Ingress) (servers : Map (List Location)) (m m' : Map Backend)
    → merge_default ing servers m ≡ some m'
    → KeepsAll m m'
unfolding merge_default
merge_default-KeepsAll ing servers m m' h = elim (Option-cases ing.backend) [
  | inl none_given ↦ same-KeepsAll m m' (ground arith)
  | inr (b, given) ↦ elim (Option-cases (get (name_for ing b) m)) [
    | inl gone ↦ same-KeepsAll m m' (ground arith)
    | inr (alt, found) ↦ elim (Option-cases (get def_server_name servers)) [
      | inl panics ↦ ground arith
      | inr (ls, served) ↦ merge_and_settle-KeepsAll any_location alt ls m m' (ground arith)
    ]
  ]
]

merge_path-KeepsAll :
    (ing : Ingress) (host : String) (p : HttpPath) (servers : Map (List Location))
    (m m' : Map Backend)
    → merge_path ing host p servers m ≡ some m'
    → KeepsAll m m'
unfolding merge_path
merge_path-KeepsAll ing host p servers m m' h =
    elim (Option-cases (get (name_for ing p.backend) m)) [
      | inl gone ↦ same-KeepsAll m m' (ground arith)
      | inr (alt, found) ↦ elim (Option-cases (get host servers)) [
        | inl unserved ↦ same-KeepsAll m m' (ground arith)
        | inr (ls, served) ↦ merge_and_settle-KeepsAll (same_path p) alt ls m m' (ground arith)
      ]
    ]

merge_paths-KeepsAll :
    (ing : Ingress) (host : String) (ps : List HttpPath) (servers : Map (List Location))
    (m m' : Map Backend)
    → merge_paths ing host ps servers m ≡ some m'
    → KeepsAll m m'
unfolding merge_paths
merge_paths-KeepsAll ing host [] servers m m' h = same-KeepsAll m m' (ground arith)
merge_paths-KeepsAll ing host (p ∷ ps) servers m m' h =
    elim (Option-cases (merge_path ing host p servers m)) [
      | inl panics ↦ ground arith
      | inr (n, ran) ↦
          KeepsAll-trans m n m' (merge_path-KeepsAll ing host p servers m n ran)
            (merge_paths-KeepsAll ing host ps servers n m' (ground arith))
    ]

merge_rules-KeepsAll :
    (ing : Ingress) (rs : List Rule) (servers : Map (List Location)) (m m' : Map Backend)
    → merge_rules ing rs servers m ≡ some m'
    → KeepsAll m m'
unfolding merge_rules
merge_rules-KeepsAll ing [] servers m m' h = same-KeepsAll m m' (ground arith)
merge_rules-KeepsAll ing (r ∷ rs) servers m m' h = elim (Option-cases r.http) [
  | inl panics ↦ ground arith
  | inr (ps, http) ↦ elim (Option-cases (merge_paths ing r.host ps servers m)) [
    | inl panics ↦ ground arith
    | inr (n, ran) ↦
        KeepsAll-trans m n m' (merge_paths-KeepsAll ing r.host ps servers m n ran)
          (merge_rules-KeepsAll ing rs servers n m' (ground arith))
  ]
]

Kept-origin :
    (o p : Option Backend) (v : Backend)
    → Kept o p
    → p ≡ some v
    → (u : Backend) × ((o ≡ some u) × IsGrown u v)
Kept-origin (some u) (some w) v g h = let same : w ≡ v = ground arith in (u, (refl, rw (← same) g))
Kept-origin none (some w) v g h = absurd g
Kept-origin o none v g h = ground arith

-- If the merge of a canary ingress returns, each upstream that is left stood under its key before,
-- and differs in its alternatives only: it has those that it had, and they are well formed if they
-- were.
pub merge_alternative_backends_keeps :
    (ing : Ingress) (m m' : Map Backend) (servers : Map (List Location))
    → merge_alternative_backends ing m servers ≡ some m'
    → (k : String) (v : Backend) → get k m' ≡ some v
    → (u : Backend) × ((get k m ≡ some u) × IsGrown u v)
unfolding merge_alternative_backends
merge_alternative_backends_keeps ing m m' servers h k v left =
    elim (Option-cases (merge_default ing servers m)) [
      | inl panics ↦ ground arith
      | inr (n, ran) ↦
          Kept-origin (get k m) (get k m') v
            (KeepsAll-trans m n m' (merge_default-KeepsAll ing servers m n ran)
              (merge_rules-KeepsAll ing ing.rules servers n m' (ground arith)) k)
            left
    ]
