-- ===== src/Parser.antt =====
-- internal/ingress/annotations/parser/main.go: the annotations of an ingress by their names.
pub mod Canary
use Prim.Native.Char.{Char, code}
use Prim.Native.String
use ingress_nginx.Prelude.{
  ℤ, Bool, true, false, ◌&&◌, ◌||◌, Option, none, some, List, [], ◌∷◌, String, ◌==◌, nat_eq,
  string_eq, leb, if◌then◌else◌, ◌≡◌, refl,
}
use ingress_nginx.Maps.{Map, get}
use ingress_nginx.Numbers.{atoi}
use ingress_nginx.Strings.{◌^^◌}

-- The errors of internal/ingress/errors that the parser returns.
pub data Error : Type 0 where
  missing_annotations invalid_annotation_name : Error
  invalid_content : String → String → Error

-- A value, or an error with the zero value of the type.
pub data Parsed {ℓ} (A : Type ℓ) : Type ℓ where
  value : A → Parsed A
  failed : Error → Parsed A

-- strconv.ParseBool; `none` is an error.
unfoldable pub parse_bool : String → Option Bool
parse_bool s =
    if s == "1" || s == "t" || s == "T" || s == "true" || s == "TRUE" || s == "True"
    then some true
    else if s == "0" || s == "f" || s == "F" || s == "false" || s == "FALSE" || s == "False"
    then some false
    else none

-- unicode.IsSpace
abbrev is_space : Char → Bool
is_space c =
    (leb 9 (code c) && leb (code c) 13)
    || code c == 32
    || code c == 133
    || code c == 160
    || code c == 5760
    || (leb 8192 (code c) && leb (code c) 8202)
    || code c == 8232
    || code c == 8233
    || code c == 8239
    || code c == 8287
    || code c == 12288

abbrev trim_left : String → String
trim_left String.[] = String.[]
trim_left (String.◌∷◌ c s) = let rest = trim_left s in if is_space c then rest else String.◌∷◌ c s

abbrev is_blank : String → Bool
is_blank String.[] = true
is_blank (String.◌∷◌ c s) = is_space c && is_blank s

abbrev trim_right : String → String
trim_right String.[] = String.[]
trim_right (String.◌∷◌ c s) =
    let rest = trim_right s in if is_space c && is_blank s then String.[] else String.◌∷◌ c rest

-- strings.TrimSpace
unfoldable pub trim_space : String → String
trim_space s = trim_right (trim_left s)

-- strings.Split(s, "\n"): the line so far and those that follow.
abbrev lines : String → String × List String
lines String.[] = (String.[], [])
lines (String.◌∷◌ c s) =
    let rest = lines s in
    if code c == 10 then (String.[], rest.0 ∷ rest.1) else (String.◌∷◌ c rest.0, rest.1)

abbrev join_trimmed : String → List String → String
unfolding trim_space
join_trimmed l [] = trim_space l
join_trimmed l (m ∷ ls) = trim_space l ^^ ("\n" ^^ join_trimmed m ls)

-- `normalizeString`
unfoldable pub normalize_string : String → String
unfolding trim_space
normalize_string s = join_trimmed (lines s).0 (lines s).1

abbrev pub prefixed : String → String
prefixed suffix = "nginx.ingress.kubernetes.io" ^^ ("/" ^^ suffix)

-- `checkAnnotation`, for an ingress that is not nil
unfoldable pub check_annotation : String → Map String → Option Error
check_annotation name [] = some missing_annotations
check_annotation name (a ∷ as') = if name == "" then some invalid_annotation_name else none

-- The three `Get` functions, with the parser of the value.
unfoldable pub get_annotation {ℓ} :
    {A : Type ℓ} → (String → Option A) → String → Map String → Parsed A
unfolding get check_annotation
get_annotation parse suffix annotations = elim (check_annotation (prefixed suffix) annotations) [
  | some e ↦ failed e
  | none ↦ elim (get (prefixed suffix) annotations) [
    | none ↦ failed missing_annotations
    | some val ↦ elim (parse val) [
      | none ↦ failed (invalid_content (prefixed suffix) val)
      | some a ↦ value a
    ]
  ]
]

unfoldable pub get_bool_annotation : String → Map String → Parsed Bool
unfolding get_annotation parse_bool
get_bool_annotation = get_annotation parse_bool

unfoldable pub parse_int : String → Option ℤ
unfolding atoi
parse_int s = if (atoi s).1 then none else some (atoi s).0

unfoldable pub get_int_annotation : String → Map String → Parsed ℤ
unfolding get_annotation parse_int
get_int_annotation = get_annotation parse_int

unfoldable pub parse_string : String → Option String
unfolding normalize_string
parse_string s = if normalize_string s == "" then none else some (normalize_string s)

unfoldable pub get_string_annotation : String → Map String → Parsed String
unfolding get_annotation parse_string
get_string_annotation = get_annotation parse_string

tests :
    (normalize_string "  a \n\t b  c\n" ≡ "a\nb  c\n")
    × (normalize_string " \t " ≡ "")
    × (parse_bool "T" ≡ some true)
    × (parse_bool "yes" ≡ none)
unfolding normalize_string parse_bool
tests = (refl, refl, refl, refl)
