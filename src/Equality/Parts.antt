-- ===== src/Equality/Parts.antt =====
-- Which parts of two backends Equal takes for the same, field by field.
use ingress_nginx.Prelude.{
  ℕ, Bool, true, none, some, ◌≡◌, ◌↔◌, ◌⊎◌, refl, ap, inl, inr, arith, Bool-cases, ◌==◌, nat_eq,
  string_eq, bool_eq, int_eq, eq-of-test, test-of-eq,
}
use ingress_nginx.Api.{Ref, Service, int_or_string_eq}
use ingress_nginx.Types.Backend.{
  TrafficShapingPolicy, SessionAffinityConfig, CookieSessionAffinity, UpstreamHashByConfig,
}
use ingress_nginx.Equality.Pointers.{equal_ptr}
use ingress_nginx.Equality.Backend.{
  cookie_session_affinity_equal, session_affinity_config_equal, upstream_hash_by_config_equal,
  traffic_shaping_policy_equal, service_equal,
}

-- The same address or nil, or two addresses of objects in the relation.
abbrev pub SamePointers {ℓ} : {A : Type ℓ} → (ℕ → A) → (A → A → Type 0) → Ref → Ref → Type 0
SamePointers load R none none = Unit
SamePointers load R none (some b) = ⊥
SamePointers load R (some a) none = ⊥
SamePointers load R (some a) (some b) = (a ≡ b) ⊎ R (load a) (load b)

pub equal_ptr_iff {ℓ} :
    {A : Type ℓ} (load : ℕ → A) (eq : A → A → Bool) (R : A → A → Type 0)
    → ((a b : A) → (eq a b ≡ true) ↔ R a b)
    → (p q : Ref) → (equal_ptr load eq p q ≡ true) ↔ SamePointers load R p q
unfolding equal_ptr
equal_ptr_iff load eq R exact none none = (λ h. tt, λ h. refl)
equal_ptr_iff load eq R exact none (some b) = (λ h. cc, λ h. absurd h)
equal_ptr_iff load eq R exact (some a) none = (λ h. cc, λ h. absurd h)
equal_ptr_iff load eq R exact (some a) (some b) = elim (Bool-cases (a == b)) [
  | inl same ↦ (λ h. inl (eq-of-test a b same), λ h. ground (arith, same))
  | inr other ↦ (
    λ h. inr ((exact (load a) (load b)).0 (ground (arith, h, other))),
    λ h. elim h [
      | inl same ↦ ground (arith, test-of-eq a b same)
      | inr alike ↦ ground (arith, other, (exact (load a) (load b)).1 alike)
    ],
  )
]

-- The fields of the cookie that are compared: neither Locations nor ChangeOnFailure is among them.
pub record IsSameCookie (c d : CookieSessionAffinity) : Type 0 where
  pub name : c.name ≡ d.name
  pub path : c.path ≡ d.path
  pub expires : c.expires ≡ d.expires
  pub max_age : c.max_age ≡ d.max_age
  pub same_site : c.same_site ≡ d.same_site
  pub conditional_same_site_none : c.conditional_same_site_none ≡ d.conditional_same_site_none

cookie_iff :
    (c d : CookieSessionAffinity) → (cookie_session_affinity_equal c d ≡ true) ↔ IsSameCookie c d
unfolding cookie_session_affinity_equal
cookie_iff c d = (
  λ h. record {
    name = eq-of-test c.name d.name (ground (arith, h));
    path = eq-of-test c.path d.path (ground (arith, h));
    expires = eq-of-test c.expires d.expires (ground (arith, h));
    max_age = eq-of-test c.max_age d.max_age (ground (arith, h));
    same_site = eq-of-test c.same_site d.same_site (ground (arith, h));
    conditional_same_site_none =
        eq-of-test c.conditional_same_site_none d.conditional_same_site_none (ground (arith, h));
  },
  λ s. ground (
    arith,
    test-of-eq c.name d.name s.name,
    test-of-eq c.path d.path s.path,
    test-of-eq c.expires d.expires s.expires,
    test-of-eq c.max_age d.max_age s.max_age,
    test-of-eq c.same_site d.same_site s.same_site,
    test-of-eq c.conditional_same_site_none d.conditional_same_site_none
        s.conditional_same_site_none,
  ),
)

pub record IsSameAffinity (c d : SessionAffinityConfig) : Type 0 where
  pub affinity_type : c.affinity_type ≡ d.affinity_type
  pub affinity_mode : c.affinity_mode ≡ d.affinity_mode
  pub cookie : IsSameCookie c.cookie_session_affinity d.cookie_session_affinity

pub affinity_iff :
    (c d : SessionAffinityConfig) → (session_affinity_config_equal c d ≡ true) ↔ IsSameAffinity c d
unfolding session_affinity_config_equal
affinity_iff c d =
    let cookie = cookie_iff c.cookie_session_affinity d.cookie_session_affinity in
    (
      λ h. record {
        affinity_type = eq-of-test c.affinity_type d.affinity_type (ground (arith, h));
        affinity_mode = eq-of-test c.affinity_mode d.affinity_mode (ground (arith, h));
        cookie = cookie.0 (ground (arith, h));
      },
      λ s. ground (
        arith,
        test-of-eq c.affinity_type d.affinity_type s.affinity_type,
        test-of-eq c.affinity_mode d.affinity_mode s.affinity_mode,
        cookie.1 s.cookie,
      ),
    )

pub hash_iff : (c d : UpstreamHashByConfig) → (upstream_hash_by_config_equal c d ≡ true) ↔ (c ≡ d)
unfolding upstream_hash_by_config_equal
hash_iff c d = (
  λ h.
      let by : c.upstream_hash_by ≡ d.upstream_hash_by =
        eq-of-test c.upstream_hash_by d.upstream_hash_by (ground (arith, h)) in
      let subset : c.upstream_hash_by_subset ≡ d.upstream_hash_by_subset =
        eq-of-test c.upstream_hash_by_subset d.upstream_hash_by_subset (ground (arith, h)) in
      let size : c.upstream_hash_by_subset_size ≡ d.upstream_hash_by_subset_size =
        eq-of-test c.upstream_hash_by_subset_size d.upstream_hash_by_subset_size
          (ground (arith, h)) in
      λ i. record {
        upstream_hash_by = by i;
        upstream_hash_by_subset = subset i;
        upstream_hash_by_subset_size = size i;
      },
  λ e. ground (
    arith,
    test-of-eq c.upstream_hash_by d.upstream_hash_by (ap (λ x. x.upstream_hash_by) e),
    test-of-eq c.upstream_hash_by_subset d.upstream_hash_by_subset
        (ap (λ x. x.upstream_hash_by_subset) e),
    test-of-eq c.upstream_hash_by_subset_size d.upstream_hash_by_subset_size
        (ap (λ x. x.upstream_hash_by_subset_size) e),
  ),
)

pub policy_iff : (c d : TrafficShapingPolicy) → (traffic_shaping_policy_equal c d ≡ true) ↔ (c ≡ d)
unfolding traffic_shaping_policy_equal
policy_iff c d = (
  λ h.
      let weight : c.weight ≡ d.weight = eq-of-test c.weight d.weight (ground (arith, h)) in
      let header : c.header ≡ d.header = eq-of-test c.header d.header (ground (arith, h)) in
      let value : c.header_value ≡ d.header_value =
        eq-of-test c.header_value d.header_value (ground (arith, h)) in
      let pattern' : c.header_pattern ≡ d.header_pattern =
        eq-of-test c.header_pattern d.header_pattern (ground (arith, h)) in
      let cookie : c.cookie ≡ d.cookie = eq-of-test c.cookie d.cookie (ground (arith, h)) in
      λ i. record {
        weight = weight i;
        header = header i;
        header_value = value i;
        header_pattern = pattern' i;
        cookie = cookie i;
      },
  λ e. ground (
    arith,
    test-of-eq c.weight d.weight (ap (λ x. x.weight) e),
    test-of-eq c.header d.header (ap (λ x. x.header) e),
    test-of-eq c.header_value d.header_value (ap (λ x. x.header_value) e),
    test-of-eq c.header_pattern d.header_pattern (ap (λ x. x.header_pattern) e),
    test-of-eq c.cookie d.cookie (ap (λ x. x.cookie) e),
  ),
)

-- Two services with one namespace and name.
abbrev pub IsSameService : Service → Service → Type 0
IsSameService s t = (s.namespace ≡ t.namespace) × (s.name ≡ t.name)

pub service_iff : (s t : Service) → (service_equal s t ≡ true) ↔ IsSameService s t
unfolding service_equal
service_iff s t = (
  λ h. (
    eq-of-test s.namespace t.namespace (ground (arith, h)),
    eq-of-test s.name t.name (ground (arith, h)),
  ),
  λ (a, b). ground (arith, test-of-eq s.namespace t.namespace a, test-of-eq s.name t.name b),
)
