-- ===== src/Controller/Locations/Serving.antt =====
-- Which requests the locations of a server serve once they are updated and rendered.
use ingress_nginx.Prelude.{
  Bool, true, false, not, ◌&&◌, ◌||◌, some, List, [], ◌∷◌, ◌++◌, String, ◌==◌, string_eq,
  if◌then◌else◌, ◌≡◌, refl, inl, inr, arith, Bool-cases, eq-of-test, All, ap, sym, ◌∙◌,
}
use ingress_nginx.Maps.{contains}
use ingress_nginx.Strings.{◌^^◌, ends_in_slash}
use ingress_nginx.Strings.Prefixes.{
  starts_with, has_elements, has_elements_iff, starts_with_self, starts_with-append,
}
use ingress_nginx.Template.{build_location, enforce_regex_modifier}
use ingress_nginx.Types.Location.{Location}
use ingress_nginx.Controller.Locations.{
  is_exact, is_prefix, exact_paths, update_location, update_locations, update_server_locations,
  all_typed, normalize_prefix_path, root_location,
}

-- What a location of an Ingress promises: the one path, the paths whose first elements are its
-- elements, or the paths that start with its characters.
unfoldable pub promised : Location → String → Bool
promised l r =
    if is_exact l.path_type
    then l.path == r
    else if is_prefix l.path_type && not (ends_in_slash l.path)
    then has_elements l.path r
    else starts_with l.path r

unfoldable pub promised_by : List Location → String → Bool
promised_by [] r = false
promised_by (l ∷ ls) r = promised l r || promised_by ls r

-- The paths are absolute.
abbrev pub AreRooted : List Location → Type 0
AreRooted ls = All (λ l. starts_with "/" l.path ≡ true) ls

enforce_regex_modifier-append :
    (ls ms : List Location)
    → enforce_regex_modifier (ls ++ ms) ≡ (enforce_regex_modifier ls || enforce_regex_modifier ms)
unfolding enforce_regex_modifier
enforce_regex_modifier-append [] ms = refl
enforce_regex_modifier-append (l ∷ ls) ms = ground (arith, enforce_regex_modifier-append ls ms)

or-false : (a b : Bool) → (a || b) ≡ false → (a ≡ false) × (b ≡ false)
or-false a b h = (ground arith, ground arith)

or-over :
    (a b p q c : Bool)
    → (a || c) ≡ (p || c)
    → (b || c) ≡ (q || c)
    → ((a || b) || c) ≡ ((p || q) || c)
or-over a b p q c g h = ground arith

or-same :
    (a p c : Bool) → (a || c) ≡ (p || c) → (c ≡ true → a ≡ true) → (c ≡ true → p ≡ true) → a ≡ p
or-same a p c h f g = ground arith

-- NGINX: whether the location with a text serves a request path. `=` is followed by the one path
-- that the location serves, and a text without a modifier is a prefix.
pub record LocationMatching : Type 0 where
  pub serves : String → String → Bool
  pub exact_form : (p r : String) → serves ("= " ^^ p) r ≡ (p == r)
  pub prefix_form : (p r : String) → starts_with "/" p ≡ true → serves p r ≡ starts_with p r

module _ (G : LocationMatching) where
  open G use {serves, exact_form, prefix_form}

  unfoldable pub served_by : Bool → List Location → String → Bool
  served_by enforce [] r = false
  served_by enforce (l ∷ ls) r = serves (build_location l enforce) r || served_by enforce ls r

  served_by-append :
      (enforce : Bool) (ls ms : List Location) (r : String)
      → served_by enforce (ls ++ ms) r ≡ (served_by enforce ls r || served_by enforce ms r)
  unfolding served_by
  served_by-append enforce [] ms r = refl
  served_by-append enforce (l ∷ ls) ms r = ground (arith, served_by-append enforce ls ms r)

  update_location-serves :
      (ex : List String) (l : Location) (r : String)
      → starts_with "/" l.path ≡ true
      → enforce_regex_modifier (update_location ex l) ≡ false
      → (served_by false (update_location ex l) r || contains ex r)
        ≡ (promised l r || contains ex r)
  unfolding served_by update_location promised build_location normalize_prefix_path
      enforce_regex_modifier ends_in_slash
  update_location-serves ex l r rooted plain =
      let elements = has_elements_iff l.path r in
      let longer = starts_with-append "/" l.path "/" rooted in
      let root : l.path == root_location ≡ true → ends_in_slash l.path ≡ true =
        λ h. rw (eq-of-test l.path root_location h) refl in
      ground (
        arith,
        rooted,
        plain,
        root,
        eq-of-test l.path r,
        elements,
        starts_with_self l.path r,
        longer,
        exact_form l.path r,
        prefix_form l.path r,
        prefix_form (l.path ^^ "/") r longer,
      )

  update_locations-serves :
      (ex : List String) (ls : List Location) (r : String)
      → AreRooted ls
      → enforce_regex_modifier (update_locations ex ls) ≡ false
      → (served_by false (update_locations ex ls) r || contains ex r)
        ≡ (promised_by ls r || contains ex r)
  unfolding served_by update_locations promised_by enforce_regex_modifier
  update_locations-serves ex [] r rooted plain = refl
  update_locations-serves ex (l ∷ ls) r rooted plain =
      let plain-both =
        enforce_regex_modifier-append (update_location ex l) (update_locations ex ls) in
      let plain-each = or-false _ _ (sym plain-both ∙ plain) in
      ap (λ b. b || contains ex r)
        (served_by-append false (update_location ex l) (update_locations ex ls) r)
      ∙ or-over _ _ (promised l r) (promised_by ls r) (contains ex r)
          (update_location-serves ex l r rooted.0 plain-each.0)
          (update_locations-serves ex ls r rooted.1 plain-each.1)

  -- The exact locations are served before and after.
  exact_is_promised :
      (ls : List Location) (r : String)
      → contains (exact_paths ls) r ≡ true
      → promised_by ls r ≡ true
  unfolding promised_by promised exact_paths contains
  exact_is_promised [] r h = h
  exact_is_promised (l ∷ ls) r h = ground (arith, exact_is_promised ls r)

  exact_is_served :
      (ex : List String) (ls : List Location) (r : String)
      → contains (exact_paths ls) r ≡ true
      → served_by false (update_locations ex ls) r ≡ true
  unfolding served_by update_locations update_location exact_paths contains build_location
  exact_is_served ex [] r h = ground arith
  exact_is_served ex (l ∷ ls) r h = ground (
    arith,
    served_by-append false (update_location ex l) (update_locations ex ls) r,
    exact_is_served ex ls r,
    exact_form l.path r,
  )

  -- Where no location of the result needs a regular expression and the paths are absolute, the
  -- updated and rendered locations serve the request paths that the given locations promise.
  pub served_as_promised :
      (ls ms : List Location)
      → AreRooted ls
      → update_server_locations ls ≡ some ms
      → enforce_regex_modifier ms ≡ false
      → (r : String) → served_by (enforce_regex_modifier ms) ms r ≡ promised_by ls r
  unfolding update_server_locations
  served_as_promised ls ms rooted h plain r = elim (Bool-cases (all_typed ls)) [
    | inl typed ↦
        let ms≡ : update_locations (exact_paths ls) ls ≡ ms = ground arith in
        rw plain (
          rw ms≡ at (
            or-same _ (promised_by ls r) (contains (exact_paths ls) r)
              (update_locations-serves (exact_paths ls) ls r rooted (rw ms≡ plain))
              (exact_is_served (exact_paths ls) ls r) (exact_is_promised ls r)))
    | inr untyped ↦ ground arith
  ]
