-- ===== src/K8s/RoundTrip.antt =====
-- ParseNameNS reads what MetaNamespaceKey writes.
use Prim.Native.Char.{Char, code}
use text.Mathlib.TextLemmas.{nil-append, cons-append}
use text.Mathlib.TextEquality.{Char-path}
use ingress_nginx.Prelude.{
  Bool, true, false, ◌&&◌, not, some, List, [], ◌∷◌, String, ◌≡◌, ◌↔◌, refl, sym, ap, ◌==◌, nat_eq,
  string_eq, arith, eq-of-test, Bool-cases, inl, inr,
}
use ingress_nginx.Api.{meta_namespace_key}
use ingress_nginx.Strings.{◌^^◌}
use ingress_nginx.K8s.{before_first, split_slash, two_parts, parse_name_ns}

-- The text has no slash.
unfoldable pub has_no_slash : String → Bool
has_no_slash String.[] = true
has_no_slash (String.◌∷◌ c s) = not (code c == b'/') && has_no_slash s

split_slash-whole : (s : String) → has_no_slash s ≡ true → split_slash s ≡ s ∷ []
unfolding has_no_slash split_slash
split_slash-whole String.[] h = refl
split_slash-whole (String.◌∷◌ c s) h = ground (arith, split_slash-whole s, h)

split_slash-append :
    (s t : String) → has_no_slash s ≡ true → split_slash (s ^^ ("/" ^^ t)) ≡ s ∷ split_slash t
unfolding has_no_slash split_slash
split_slash-append String.[] t h = rw nil-append (rw cons-append (rw nil-append refl))
split_slash-append (String.◌∷◌ c s) t h = rw cons-append (ground (arith, split_slash-append s t, h))

-- strings.Join(ss, "/")
unfoldable pub join_slash : List String → String
join_slash [] = ""
join_slash (s ∷ []) = s
join_slash (s ∷ t ∷ ss) = s ^^ ("/" ^^ join_slash (t ∷ ss))

join_slash-before_first :
    (c : Char) (s : String) (ss : List String)
    → join_slash (before_first c (s ∷ ss)) ≡ String.◌∷◌ c (join_slash (s ∷ ss))
unfolding join_slash
join_slash-before_first c s [] = refl
join_slash-before_first c s (t ∷ ss) = cons-append c s _

split_slash-some : (s : String) → (t : String) × (ts : List String) × (split_slash s ≡ t ∷ ts)
unfolding split_slash
split_slash-some String.[] = (String.[], [], refl)
split_slash-some (String.◌∷◌ c s) =
    let rest = split_slash-some s in
    elim (Bool-cases (code c == b'/')) [
      | inl slash ↦ (String.[], split_slash s, ground (arith, slash))
      | inr other ↦ (String.◌∷◌ c rest.0, rest.1, ground (arith, other, rest.2))
    ]

slash_char : (c : Char) → (code c == b'/') ≡ true → c ≡ "/"
slash_char c h = Char-path c "/" (eq-of-test (code c) b'/' h)

join_slash-split_slash : (s : String) → join_slash (split_slash s) ≡ s
unfolding join_slash split_slash
join_slash-split_slash String.[] = refl
join_slash-split_slash (String.◌∷◌ c s) =
    let rest = split_slash-some s in
    let whole : join_slash (rest.0 ∷ rest.1) ≡ s = rw rest.2 at (join_slash-split_slash s) in
    elim (Bool-cases (code c == b'/')) [
      | inl slash ↦ rw slash (
          rw rest.2 (
            rw nil-append (
              rw cons-append
                (rw nil-append (rw (slash_char c slash) (ap (String.◌∷◌ "/") whole))))))
      | inr other ↦
          rw other
            (rw rest.2 (rw (join_slash-before_first c rest.0 rest.1) (ap (String.◌∷◌ c) whole)))
    ]

parse_written :
    (namespace name : String)
    → (namespace == "") ≡ false
    → has_no_slash namespace ≡ true
    → has_no_slash name ≡ true
    → parse_name_ns (meta_namespace_key namespace name) ≡ some (namespace, name)
unfolding parse_name_ns meta_namespace_key
parse_written namespace name set h k =
    rw set (rw (split_slash-append namespace name h) (rw (split_slash-whole name k) refl))

two_parts-some :
    (parts : List String) (namespace name : String)
    → two_parts parts ≡ some (namespace, name)
    → parts ≡ namespace ∷ name ∷ []
two_parts-some [] namespace name h = cc
two_parts-some (a ∷ []) namespace name h = cc
two_parts-some (a ∷ b ∷ []) namespace name h = cc
two_parts-some (a ∷ b ∷ c ∷ rest) namespace name h = cc

written_parsed :
    (input namespace name : String)
    → parse_name_ns input ≡ some (namespace, name)
    → input ≡ namespace ^^ ("/" ^^ name)
unfolding parse_name_ns join_slash
written_parsed input namespace name h =
    sym (rw (two_parts-some (split_slash input) namespace name h) at (join_slash-split_slash input))

-- For a namespace that is not empty and a name, both without a slash, ParseNameNS returns them for just
-- one text: the key that MetaNamespaceKey joins of them.
pub parse_name_ns_iff :
    (input namespace name : String)
    → (namespace == "") ≡ false
    → has_no_slash namespace ≡ true
    → has_no_slash name ≡ true
    → (parse_name_ns input ≡ some (namespace, name)) ↔ (input ≡ meta_namespace_key namespace name)
unfolding meta_namespace_key
parse_name_ns_iff input namespace name set h k = (
  λ e. rw set (written_parsed input namespace name e),
  λ e. rw e (parse_written namespace name set h k),
)
