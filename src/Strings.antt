-- ===== src/Strings.antt =====
-- The functions of the Go package `strings` that the program applies to paths and names.
pub mod Prefixes
use Prim.Native.Char.{code}
use Prim.Native.String
use text.Mathlib.TextLemmas.{cons-append}
use ingress_nginx.Prelude.{
  Bool, true, false, String, ◌≡◌, refl, ◌==◌, nat_eq, string_eq, arith, if◌then◌else◌, [], ◌∷◌,
}

-- strings.HasSuffix(s, "/")
unfoldable pub ends_in_slash : String → Bool
ends_in_slash String.[] = false
ends_in_slash (String.◌∷◌ c String.[]) = code c == b'/'
ends_in_slash (String.◌∷◌ c (String.◌∷◌ d s)) = ends_in_slash (String.◌∷◌ d s)

-- strings.TrimSuffix(s, ".")
unfoldable pub trim_dot : String → String
trim_dot String.[] = String.[]
trim_dot (String.◌∷◌ c String.[]) = if code c == b'.' then String.[] else String.◌∷◌ c String.[]
trim_dot (String.◌∷◌ c (String.◌∷◌ d s)) = String.◌∷◌ c (trim_dot (String.◌∷◌ d s))

infixr 65 ◌^^◌
-- The concatenation of texts, as fmt.Sprintf makes it.
abbrev pub ◌^^◌ : String → String → String
a ^^ b = String.◌++◌ a b

pub ends_in_slash-append : (s : String) → ends_in_slash (s ^^ "/") ≡ true
unfolding ends_in_slash
ends_in_slash-append String.[] = refl
ends_in_slash-append (String.◌∷◌ c String.[]) = rw cons-append refl
ends_in_slash-append (String.◌∷◌ c (String.◌∷◌ d s)) =
    rw cons-append (rw cons-append (rw cons-append at (ends_in_slash-append (String.◌∷◌ d s))))
