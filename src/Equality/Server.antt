-- ===== src/Equality/Server.antt =====
-- internal/ingress/types_equals.go: `Equal` of certificates and servers. `ProxySSL` takes no part.
use ingress_nginx.Prelude.{
  Bool, true, List, [], ◌∷◌, ◌≡◌, String, Slice, elems, len, on, via, all_agree, IsEquiv,
  IsReflexive, equiv_rules, reflexive_rules, string_eq, bool_eq, int_eq, nat_eq, ◌==◌, on-IsEquiv,
  eq-of-test, test-of-eq, arith, ℕ, none, some, refl, SymmetricAt, symmetric_rules, symmetric_sized,
  All,
}
use ingress_nginx.Api.{Ref}
use ingress_nginx.Sets.{string_elements_match}
use ingress_nginx.Sets.Laws.{string_elements_match-IsEquiv}
use ingress_nginx.Annotations.AuthTls
use ingress_nginx.Types.Server.{Server, SslCert}
use ingress_nginx.Types.Heap.{Heap}
use ingress_nginx.Equality.Pointers.{
  equal_ptr, equal_ptr-IsEquiv, equal_ptr-IsReflexive, equal_in_order, equal_in_order-IsReflexive,
  all_found, all_found-IsReflexive,
}
use ingress_nginx.Equality.Distinct.{AllDistinct, all_found-symmetric, equal_in_order-symmetric}
use ingress_nginx.Equality.Location.{location_ptr_equal, location_ptr_equal-IsEquiv}

unfoldable pub ssl_cert_equal : SslCert → SslCert → Bool
ssl_cert_equal = all_agree (
    on (λ s. s.ca_sha)
    ∷ on (λ s. s.crl_sha)
    ∷ on (λ s. s.pem_sha)
    ∷ on (λ s. s.expire_time)
    ∷ on (λ s. s.pem_cert_key)
    ∷ on (λ s. s.uid)
    ∷ via string_elements_match (λ s. s.cn)
    ∷ [])

pub ssl_cert_equal-IsEquiv : IsEquiv ssl_cert_equal
unfolding ssl_cert_equal
ssl_cert_equal-IsEquiv = search (equiv_rules, string_elements_match-IsEquiv) depth 30

-- The loop over s1.Aliases that looks for each alias in s2.Aliases.
unfoldable pub aliases_found : Slice String → Slice String → Bool
aliases_found a b = all_found (λ a1 a2. a1 == a2) (elems a) (elems b)

aliases_found-IsReflexive : IsReflexive aliases_found
unfolding aliases_found
aliases_found-IsReflexive a = all_found-IsReflexive _ (on-IsEquiv (λ s. s)).reflexive (elems a)

everywhere : (xs : List Ref) → All (λ _. Unit {0}) xs
everywhere [] = tt
everywhere (x ∷ xs) = (tt, everywhere xs)

module _ (h : Heap) where
  unfoldable pub locations_equal : Slice Ref → Slice Ref → Bool
  locations_equal a b = equal_in_order (location_ptr_equal h) (elems a) (elems b)

  locations_equal-IsReflexive : IsReflexive locations_equal
  unfolding locations_equal
  locations_equal-IsReflexive a =
      equal_in_order-IsReflexive _ (location_ptr_equal-IsEquiv h).reflexive (elems a)

  unfoldable pub equal : Server → Server → Bool
  equal = all_agree (
      on (λ s. s.hostname)
      ∷ on (λ s. s.ssl_passthrough)
      ∷ via (equal_ptr h.ssl_cert ssl_cert_equal) (λ s. s.ssl_cert)
      ∷ on (λ s. len s.aliases)
      ∷ via aliases_found (λ s. s.aliases)
      ∷ on (λ s. s.redirect_from_to_www)
      ∷ via AuthTls.equal (λ s. s.certificate_auth)
      ∷ on (λ s. s.server_snippet)
      ∷ on (λ s. s.ssl_ciphers)
      ∷ on (λ s. s.ssl_prefer_server_ciphers)
      ∷ on (λ s. s.auth_tls_error)
      ∷ on (λ s. len s.locations)
      ∷ via locations_equal (λ s. s.locations)
      ∷ [])

  pub server_equal-IsReflexive : IsReflexive equal
  unfolding equal
  server_equal-IsReflexive s =
      search
        (
          reflexive_rules, equiv_rules, equal_ptr-IsEquiv, ssl_cert_equal-IsEquiv,
          aliases_found-IsReflexive, AuthTls.equal-IsEquiv, locations_equal-IsReflexive,
        )
        depth 50 fits 20000

  unfoldable pub server_ptr_equal : Ref → Ref → Bool
  server_ptr_equal = equal_ptr h.server equal

  pub server_ptr_equal-IsReflexive : IsReflexive server_ptr_equal
  unfolding server_ptr_equal
  server_ptr_equal-IsReflexive = equal_ptr-IsReflexive h.server equal

  aliases_found-symmetric :
      (a b : Slice String)
      → AllDistinct (λ a1 a2. a1 == a2) (elems a)
      → len a ≡ len b
      → aliases_found a b ≡ true
      → aliases_found b a ≡ true
  unfolding aliases_found
  aliases_found-symmetric a b d l p =
      all_found-symmetric _ (on-IsEquiv (λ s. s)) (elems a) (elems b) d l p

  locations_equal-symmetric :
      (a b : Slice Ref) → len a ≡ len b → locations_equal a b ≡ true → locations_equal b a ≡ true
  unfolding locations_equal
  locations_equal-symmetric a b l p =
      equal_in_order-symmetric _ (λ _. Unit)
        (λ x y _ e. (location_ptr_equal-IsEquiv h).symmetric x y e) (elems a) (elems b)
        (everywhere (elems a)) l p

  aliases_row :
      (rs : List (Server → Server → Bool)) {s1 s2 : Server}
      → AllDistinct (λ a1 a2. a1 == a2) (elems s1.aliases)
      → SymmetricAt (all_agree rs) s1 s2
      → SymmetricAt
          (all_agree (on (λ s. len s.aliases) ∷ via aliases_found (λ s. s.aliases) ∷ rs))
          s1
          s2
  aliases_row rs {s1} {s2} d rest =
      symmetric_sized (λ (s : Server). len s.aliases) (via aliases_found (λ s. s.aliases)) rs
        (aliases_found-symmetric s1.aliases s2.aliases d) rest

  locations_row :
      (rs : List (Server → Server → Bool)) {s1 s2 : Server}
      → SymmetricAt (all_agree rs) s1 s2
      → SymmetricAt
          (all_agree (on (λ s. len s.locations) ∷ via locations_equal (λ s. s.locations) ∷ rs))
          s1
          s2
  locations_row rs {s1} {s2} rest =
      symmetric_sized (λ (s : Server). len s.locations) (via locations_equal (λ s. s.locations)) rs
        (locations_equal-symmetric s1.locations s2.locations) rest

  server_equal-SymmetricAt :
      (s1 s2 : Server)
      → AllDistinct (λ a1 a2. a1 == a2) (elems s1.aliases)
      → SymmetricAt equal s1 s2
  unfolding equal
  server_equal-SymmetricAt s1 s2 d =
      search
        (
          symmetric_rules, aliases_row, locations_row, equiv_rules, equal_ptr-IsEquiv,
          ssl_cert_equal-IsEquiv, AuthTls.equal-IsEquiv,
        )
        depth 50 fits 20000

  -- Two servers compare equal in both orders if in one, where the aliases of the first differ from
  -- one another.
  pub server_equal-symmetric :
      (s1 s2 : Server)
      → AllDistinct (λ a1 a2. a1 == a2) (elems s1.aliases)
      → equal s1 s2 ≡ true
      → equal s2 s1 ≡ true
  server_equal-symmetric s1 s2 d = (server_equal-SymmetricAt s1 s2 d).flip

  -- The same through pointers.
  pub server_ptr_equal-symmetric :
      (p q : Ref)
      → ((a : ℕ) → p ≡ some a → AllDistinct (λ a1 a2. a1 == a2) (elems (h.server a).aliases))
      → server_ptr_equal p q ≡ true
      → server_ptr_equal q p ≡ true
  unfolding server_ptr_equal equal_ptr
  server_ptr_equal-symmetric none none d e = refl
  server_ptr_equal-symmetric none (some b) d e = e
  server_ptr_equal-symmetric (some a) none d e = e
  server_ptr_equal-symmetric (some a) (some b) d e = ground (
    arith,
    eq-of-test a b,
    test-of-eq b a,
    server_equal-symmetric (h.server a) (h.server b) (d a refl),
  )
