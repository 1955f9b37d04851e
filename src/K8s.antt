-- ===== src/K8s.antt =====
-- internal/k8s/main.go: the names of objects with their namespaces.
pub mod RoundTrip
use Prim.Native.Char.{Char, code}
use Prim.Native.String
use ingress_nginx.Prelude.{Option, none, some, List, [], ◌∷◌, String, ◌==◌, nat_eq, if◌then◌else◌}

-- The list with a character before its first text.
abbrev pub before_first : Char → List String → List String
before_first c [] = []
before_first c (s ∷ ss) = String.◌∷◌ c s ∷ ss

-- strings.Split(s, "/")
unfoldable pub split_slash : String → List String
split_slash String.[] = String.[] ∷ []
split_slash (String.◌∷◌ c s) =
    let rest = split_slash s in if code c == b'/' then String.[] ∷ rest else before_first c rest

-- The result for the parts, with `none` for an error.
abbrev pub two_parts : List String → Option (String × String)
two_parts (namespace ∷ name ∷ []) = some (namespace, name)
two_parts [] = none
two_parts (a ∷ []) = none
two_parts (a ∷ b ∷ c ∷ rest) = none

-- `ParseNameNS`
unfoldable pub parse_name_ns : String → Option (String × String)
unfolding split_slash
parse_name_ns input = two_parts (split_slash input)
