-- ===== src/Parser/Canary.antt =====
-- internal/ingress/annotations/canary/main.go: the annotations of a canary ingress.
pub mod Reads
pub mod Checked
use ingress_nginx.Prelude.{
  pos, ltb_ℤ, Bool, true, false, not, ◌&&◌, ◌||◌, Option, none, some, String, ◌==◌, string_eq, ◌≡◌,
  arith, if◌then◌else◌, eq-of-test, ◌↔◌, ◌⊎◌, inl, inr, Bool-cases,
}
use ingress_nginx.Annotations.Canary.{Config}
use ingress_nginx.Maps.{Map}
use ingress_nginx.Parser.{
  Parsed, value, failed, get_bool_annotation, get_int_annotation, get_string_annotation,
}

-- The value, and the given one where there is an error.
abbrev pub or_else {ℓ} : {A : Type ℓ} → A → Parsed A → A
or_else d (value a) = a
or_else d (failed e) = d

-- The configuration before the last check.
unfoldable pub read_config : Map String → Config
unfolding get_bool_annotation get_int_annotation get_string_annotation
read_config annotations = record {
  enabled = or_else false (get_bool_annotation "canary" annotations);
  weight = or_else (pos 0) (get_int_annotation "canary-weight" annotations);
  header = or_else "" (get_string_annotation "canary-by-header" annotations);
  header_value = or_else "" (get_string_annotation "canary-by-header-value" annotations);
  header_pattern = or_else "" (get_string_annotation "canary-by-header-pattern" annotations);
  cookie = or_else "" (get_string_annotation "canary-by-cookie" annotations);
}

-- Whether the configuration asks for some traffic.
unfoldable pub is_configured : Config → Bool
is_configured c =
    ltb_ℤ (pos 0) c.weight
    || not (c.header == "")
    || not (c.header_value == "")
    || not (c.cookie == "")
    || not (c.header_pattern == "")

-- The last check; `none` is the error "configured but not enabled".
unfoldable pub checked : Config → Option Config
unfolding is_configured
checked config = if not config.enabled && is_configured config then none else some config

-- `Parse`
unfoldable pub parse : Map String → Option Config
unfolding read_config checked
parse annotations = checked (read_config annotations)
