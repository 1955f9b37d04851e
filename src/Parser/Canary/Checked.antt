-- ===== src/Parser/Canary/Checked.antt =====
-- When the canary annotations of an ingress are an error.
use ingress_nginx.Prelude.{pos, ltb_ℤ, false, string_eq, ◌≡◌}
use ingress_nginx.Annotations.Canary.{Config}

-- A configuration that asks for nothing.
abbrev pub IsQuiet : Config → Type 0
IsQuiet c =
    (ltb_ℤ (pos 0) c.weight ≡ false)
    × ((c.header ≡ "") × ((c.header_value ≡ "") × ((c.header_pattern ≡ "") × (c.cookie ≡ ""))))
