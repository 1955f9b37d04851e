-- ===== src/Controller/BackendServers/Sorted.antt =====
-- The order of the locations of a server.
use Prim.Native.String
use mathlib.Core.List.{Perm}
use mathlib.Core.List.Perm
use ingress_nginx.Prelude.{Bool, false, List, ltb, ◌≡◌, ◌≤◌, arith}
use ingress_nginx.Sorting.{slice_stable, text_less}
use ingress_nginx.Sorting.Laws.{
  Pairs, Pairs-any, Pairs-map, IsStrictWeak, Stable, slice_stable-permutes, slice_stable-Stable,
  text_less-IsStrictWeak,
}
use ingress_nginx.Types.Location.{Location}
use ingress_nginx.Controller.BackendServers.Result.{sort_locations}

-- The one location may stand before the other: its path is longer, or as long and not less.
abbrev pub MayPrecede : Location → Location → Type 0
MayPrecede a b =
    (String.len b.path ≤ String.len a.path)
    × (String.len a.path ≡ String.len b.path → text_less a.path b.path ≡ false)

longer : Location → Location → Bool
longer a b = ltb (String.len b.path) (String.len a.path)

greater : Location → Location → Bool
greater a b = text_less b.path a.path

longer-IsStrictWeak : IsStrictWeak longer
unfolding longer
longer-IsStrictWeak = record {
  asymmetric = λ a b h. ground arith;
  passes = λ a b c h k. ground arith;
}

greater-IsStrictWeak : IsStrictWeak greater
unfolding greater
greater-IsStrictWeak = record {
  asymmetric = λ a b h. text_less-IsStrictWeak.asymmetric b.path a.path h;
  passes = λ a b c h k. text_less-IsStrictWeak.passes c.path b.path a.path k h;
}

MayPrecede-of_Stable :
    (a b : Location) → Stable longer (Stable greater (λ x y. Unit)) a b → MayPrecede a b
unfolding longer greater
MayPrecede-of_Stable a b h = (ground (arith, h.0), λ same. (h.1 (ground (arith, same))).0)

-- The two stable sorts give a permutation of the locations, in which a longer path stands before a
-- shorter one, and of two paths of the same length the greater one first.
pub sort_locations_lem :
    (ls : List Location) → Perm ls (sort_locations ls) × Pairs MayPrecede (sort_locations ls)
unfolding sort_locations longer greater
sort_locations_lem ls =
    let once = slice_stable greater ls in
    let first =
      slice_stable-Stable greater greater-IsStrictWeak (λ x y. Unit) ls
        (Pairs-any (λ x y. Unit) ls (λ x y. tt)) in
    (
      Perm.trans (slice_stable-permutes greater ls) (slice_stable-permutes longer once),
      Pairs-map (Stable longer (Stable greater (λ x y. Unit))) MayPrecede (slice_stable longer once)
          MayPrecede-of_Stable
          (slice_stable-Stable longer longer-IsStrictWeak (Stable greater (λ x y. Unit)) once
            first),
    )
