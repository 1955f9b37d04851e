-- ===== src/Controller/Secrets/SameName.antt =====
-- Names of hosts that are the same but for the case of the letters.
use Prim.Native.Char.{code}
use ingress_nginx.Prelude.{
  ℕ, ◌+◌, ◌≤◌, ◌&&◌, true, String, ◌≡◌, refl, ◌⊎◌, inl, inr, Bool-cases, ◌==◌, nat_eq, arith, leb,
}
use ingress_nginx.Controller.Certificates.{lower_code, to_lower_case_ascii, codes_equal}

abbrev pub IsCapital : ℕ → Type 0
IsCapital c = (65 ≤ c) × (c ≤ 90)

-- The same character, or a letter of ASCII as a capital and as a small letter.
abbrev pub IsSameLetter : ℕ → ℕ → Type 0
IsSameLetter c d = (c ≡ d) ⊎ ((IsCapital c × (d ≡ c + 32)) ⊎ (IsCapital d × (c ≡ d + 32)))

-- The same text but for the case of the letters of ASCII.
abbrev pub IsSameName : String → String → Type 0
IsSameName String.[] String.[] = Unit
IsSameName String.[] (String.◌∷◌ d t) = ⊥
IsSameName (String.◌∷◌ c s) String.[] = ⊥
IsSameName (String.◌∷◌ c s) (String.◌∷◌ d t) = IsSameLetter (code c) (code d) × IsSameName s t

IsSameLetter-of_codes : (c d : ℕ) → (lower_code c == lower_code d) ≡ true → IsSameLetter c d
IsSameLetter-of_codes c d h = elim (Bool-cases (leb 65 c && leb c 90)) [
  | inl c_capital ↦ elim (Bool-cases (leb 65 d && leb d 90)) [
    | inl d_capital ↦ inl (ground (arith, h, c_capital, d_capital))
    | inr d_small ↦ inr (
        inl (
          (ground (arith, c_capital), ground (arith, c_capital)),
          ground (arith, h, c_capital, d_small),
        ))
  ]
  | inr c_small ↦ elim (Bool-cases (leb 65 d && leb d 90)) [
    | inl d_capital ↦ inr (
        inr (
          (ground (arith, d_capital), ground (arith, d_capital)),
          ground (arith, h, c_small, d_capital),
        ))
    | inr d_small ↦ inl (ground (arith, h, c_small, d_small))
  ]
]

codes-of_same_letter : (c d : ℕ) → IsSameLetter c d → (lower_code c == lower_code d) ≡ true
codes-of_same_letter c d (inl same) = ground (arith, same)
codes-of_same_letter c d (inr (inl (capital, small))) = ground (arith, capital.0, capital.1, small)
codes-of_same_letter c d (inr (inr (capital, small))) = ground (arith, capital.0, capital.1, small)

pub IsSameName-of_codes :
    (s t : String)
    → codes_equal (to_lower_case_ascii s) (to_lower_case_ascii t) ≡ true
    → IsSameName s t
unfolding to_lower_case_ascii
IsSameName-of_codes String.[] String.[] h = tt
IsSameName-of_codes String.[] (String.◌∷◌ d t) h = cc
IsSameName-of_codes (String.◌∷◌ c s) String.[] h = cc
IsSameName-of_codes (String.◌∷◌ c s) (String.◌∷◌ d t) h = (
  IsSameLetter-of_codes (code c) (code d) (ground (arith, h)),
  IsSameName-of_codes s t (ground (arith, h)),
)

pub codes-of_same_name :
    (s t : String)
    → IsSameName s t
    → codes_equal (to_lower_case_ascii s) (to_lower_case_ascii t) ≡ true
unfolding to_lower_case_ascii
codes-of_same_name String.[] String.[] h = refl
codes-of_same_name String.[] (String.◌∷◌ d t) h = absurd h
codes-of_same_name (String.◌∷◌ c s) String.[] h = absurd h
codes-of_same_name (String.◌∷◌ c s) (String.◌∷◌ d t) (l, h) =
    ground (arith, codes-of_same_letter (code c) (code d) l, codes-of_same_name s t h)
