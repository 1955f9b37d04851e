-- ===== src/Parser/Canary/Reads.antt =====
-- What the canary annotations of an ingress say, and that it is what is read of them.
use ingress_nginx.Prelude.{
  some-injective, ℤ, pos, ltb_ℤ, Bool, true, false, Option, none, some, [], ◌∷◌, String, ◌==◌,
  string_eq, ◌≡◌, ◌≢◌, refl, sym, ◌∙◌, subst, ap, arith, if◌then◌else◌, test-of-ne, ne-of-test, ◌↔◌,
  ◌⊎◌, inl, inr, Bool-cases, Option-cases, Some,
}
use ingress_nginx.Maps.{Map, get}
use ingress_nginx.Numbers.{atoi}
use ingress_nginx.Parser.{
  prefixed, check_annotation, get_annotation, get_bool_annotation, get_int_annotation,
  get_string_annotation, parse_bool, parse_int, parse_string, normalize_string,
}
use ingress_nginx.Parser.Canary.{or_else, read_config}

-- The annotation has a text that is not blank.
abbrev pub HasText : Map String → String → Type 0
HasText annotations suffix =
    (v : String) × (get (prefixed suffix) annotations ≡ some v) × (normalize_string v ≢ "")

-- The annotation "canary" is true.
abbrev pub IsOn : Map String → Type 0
IsOn annotations =
    (v : String) × (get (prefixed "canary") annotations ≡ some v) × (parse_bool v ≡ some true)

-- The annotation "canary-weight" is a positive number.
abbrev pub HasWeight : Map String → Type 0
HasWeight annotations =
    (v : String) × (get (prefixed "canary-weight") annotations ≡ some v)
    × (n : ℤ) × (atoi v ≡ (n, false))
    × (ltb_ℤ (pos 0) n ≡ true)

-- The annotations ask for canary traffic.
abbrev pub AsksForTraffic : Map String → Type 0
AsksForTraffic annotations =
    HasWeight annotations
    ⊎ Some (HasText annotations) (
        "canary-by-header" ∷ "canary-by-header-value" ∷ "canary-by-cookie"
        ∷ "canary-by-header-pattern" ∷ [])

get-nil : (k v : String) → get k [] ≡ some v → ⊥
unfolding get
get-nil k v h = cc

module _ {A : Type 0} (parse : String → Option A) (d : A) (suffix : String) where
  -- There is an annotation that can be parsed.
  abbrev IsRead : Map String → A → Type 0
  IsRead annotations a =
      (v : String) × (get (prefixed suffix) annotations ≡ some v) × (parse v ≡ some a)

  abbrev read : Map String → A
  unfolding get_annotation
  read annotations = or_else d (get_annotation parse suffix annotations)

  read-missing :
      (annotations : Map String) → get (prefixed suffix) annotations ≡ none → read annotations ≡ d
  unfolding get_annotation check_annotation
  read-missing [] h = refl
  read-missing (x ∷ xs) h = ground (arith, h)

  read-found :
      (annotations : Map String) (v : String)
      → (prefixed suffix == "") ≡ false
      → get (prefixed suffix) annotations ≡ some v
      → read annotations ≡ elim (parse v) [ none ↦ d | some a ↦ a ]
  unfolding get_annotation check_annotation
  read-found [] v named h = absurd (get-nil (prefixed suffix) v h)
  read-found (x ∷ xs) v named h = ground (arith, named, h)

  read-cases :
      (annotations : Map String)
      → (prefixed suffix == "") ≡ false
      → IsRead annotations (read annotations)
        ⊎ ((read annotations ≡ d) × ((a : A) → IsRead annotations a → ⊥))
  read-cases annotations named = elim (Option-cases (get (prefixed suffix) annotations)) [
    | inl missing ↦ inr (read-missing annotations missing, λ a (v, h, k). cc)
    | inr (v, found) ↦
        let result = read-found annotations v named found in
        elim (Option-cases (parse v)) [
          | inl bad ↦ inr (ground (arith, result, bad), λ a (w, h, k). cc)
          | inr (a, good) ↦ inl (v, found, good ∙ ap some (sym (ground (arith, result, good))))
        ]
  ]

  IsRead-unique :
      (annotations : Map String) (a b : A) → IsRead annotations a → IsRead annotations b → a ≡ b
  IsRead-unique annotations a b (v, h, k) (w, i, l) =
      some-injective (sym k ∙ (ap parse (some-injective (sym h ∙ i)) ∙ l))

parse_int-of_atoi : (v : String) (n : ℤ) → atoi v ≡ (n, false) → parse_int v ≡ some n
unfolding parse_int
parse_int-of_atoi v n h = ap (λ (p : ℤ × Bool). if p.1 then none else some p.0) h

atoi-of_parse_int : (v : String) (n : ℤ) → parse_int v ≡ some n → atoi v ≡ (n, false)
unfolding parse_int
atoi-of_parse_int v n h = elim (Bool-cases (atoi v).1) [
  | inl error ↦ absurd (ground (arith, h, error))
  | inr number ↦ let e : (atoi v).0 ≡ n = ground (arith, h, number) in λ i. (e i, number i)
]

parse_string-of_text :
    (v : String) → normalize_string v ≢ "" → parse_string v ≡ some (normalize_string v)
unfolding parse_string
parse_string-of_text v h = ground (arith, test-of-ne (normalize_string v) "" h)

text-of_parse_string :
    (v t : String) → parse_string v ≡ some t → (normalize_string v ≢ "") × (t ≡ normalize_string v)
unfolding parse_string
text-of_parse_string v t h = elim (Bool-cases (normalize_string v == "")) [
  | inl blank ↦ absurd (ground (arith, h, blank))
  | inr text ↦ (ne-of-test (normalize_string v) "" text, ground (arith, h, text))
]

module _ (annotations : Map String) where
  pub enabled_iff : ((read_config annotations).enabled ≡ true) ↔ IsOn annotations
  unfolding read_config get_bool_annotation get_annotation
  enabled_iff = elim (read-cases parse_bool false "canary" annotations refl) [
    | inl (v, found, good) ↦ (
      λ on. (v, found, good ∙ ap some on),
      λ on. IsRead-unique parse_bool false "canary" annotations _ true (v, found, good) on,
    )
    | inr (off, never) ↦ (λ on. absurd (ground (arith, on, off)), λ on. absurd (never true on))
  ]

  pub weight_iff : (ltb_ℤ (pos 0) (read_config annotations).weight ≡ true) ↔ HasWeight annotations
  unfolding read_config get_int_annotation get_annotation
  weight_iff = elim (read-cases parse_int (pos 0) "canary-weight" annotations refl) [
    | inl (v, found, good) ↦ (
      λ h. (v, found, _, atoi-of_parse_int v _ good, h),
      λ (w, there, n, number, positive).
          subst (λ n. ltb_ℤ (pos 0) n ≡ true)
            (sym (
              IsRead-unique parse_int (pos 0) "canary-weight" annotations _ n (v, found, good)
                (w, there, parse_int-of_atoi w n number)))
            positive,
    )
    | inr (unset, never) ↦ (
      λ h. absurd (ground (arith, subst (λ n. ltb_ℤ (pos 0) n ≡ true) unset h)),
      λ (w, there, n, number, positive). absurd (never n (w, there, parse_int-of_atoi w n number)),
    )
  ]

  pub text_iff :
      (suffix : String)
      → (prefixed suffix == "") ≡ false
      → ((or_else "" (get_string_annotation suffix annotations) == "") ≡ false)
        ↔ HasText annotations suffix
  unfolding get_string_annotation get_annotation
  text_iff suffix named = elim (read-cases parse_string "" suffix annotations named) [
    | inl (v, found, good) ↦ (
      λ h. (v, found, (text-of_parse_string v _ good).0),
      λ (w, there, text).
          subst (λ t. (t == "") ≡ false)
            (sym (
              IsRead-unique parse_string "" suffix annotations _ (normalize_string w)
                (v, found, good) (w, there, parse_string-of_text w text)))
            (test-of-ne (normalize_string w) "" text),
    )
    | inr (empty, never) ↦ (
      λ h. absurd (ne-of-test _ "" h empty),
      λ (w, there, text).
          absurd (never (normalize_string w) (w, there, parse_string-of_text w text)),
    )
  ]
