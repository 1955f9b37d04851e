-- ===== src/Controller/Streams/Allowed.antt =====
-- The ports of the stream services.
use ingress_nginx.Prelude.{
  ℤ, pos, ltb_ℤ, int_eq, Bool, false, ◌||◌, Option, none, some, List, [], ◌∷◌, Slice, elems, String,
  ◌==◌, string_eq, ◌≡◌, ◌≢◌, refl, arith, All, inl, inr, if-cases, Option-cases, subst, sym,
  ne-of-test,
}
use ingress_nginx.K8s.{parse_name_ns}
use ingress_nginx.Maps.{Map}
use ingress_nginx.Numbers.{atoi}
use ingress_nginx.Sorting.{slice_stable}
use ingress_nginx.Sorting.Laws.{
  Pairs, Pairs-map, Pairs-any, IsStrictWeak, Stable, slice_stable-All, slice_stable-Stable,
}
use ingress_nginx.Types.Configuration.{L4Service}
use ingress_nginx.Types.Backend.{Endpoint}
use ingress_nginx.Controller.Dynamic.{elems-from_nil}
use ingress_nginx.Controller.Endpoints.{Names}
use ingress_nginx.Controller.Services.{StoreView}
use ingress_nginx.Controller.Streams.{
  ListenPorts, reserved_ports, has_port, split_colon, with_stream_endpoints, referred,
  stream_service, stream_services, get_stream_services,
}

-- Not a port of `ListenPorts`, nor the port of the profiler, of the status or of the stream socket.
abbrev pub IsFree : ListenPorts → ℤ → Type 0
IsFree ports p =
    All (λ q. p ≢ q)
      (ports.http
        ∷ ports.https
        ∷ ports.ssl_proxy
        ∷ ports.health
        ∷ ports.default
        ∷ pos 10245
        ∷ pos 10246
        ∷ pos 10247
        ∷ [])

absent-All : (qs : List ℤ) (p : ℤ) → has_port qs p ≡ false → All (λ q. p ≢ q) qs
unfolding has_port
absent-All [] p h = tt
absent-All (q ∷ qs) p h =
    (λ e. ne-of-test q p (ground (arith, h)) (sym e), absent-All qs p (ground (arith, h)))

-- The port is free, the protocol is the given one, and there is an endpoint.
pub record IsAllowed (ports : ListenPorts) (proto : String) (s : L4Service) : Type 0 where
  pub free : IsFree ports s.port
  pub protocol : s.backend.protocol ≡ proto
  pub endpoints : elems s.endpoints ≢ []

option-match :
    {A B : Type 0} (P : B → Type 0) (x : Option A) (n : B) (f : A → B)
    → P n
    → ((a : A) → P (f a))
    → P (elim x [ none ↦ n | some a ↦ f a ])
option-match P none n f h k = h
option-match P (some a) n f h k = k a

-- A predicate on what is there.
abbrev Each : (L4Service → Type 0) → Option L4Service → Type 0
Each P none = Unit
Each P (some s) = P s

module _ (N : Names) (S : StoreView) (proto : String) (ports : ListenPorts) where
  with_stream_endpoints-IsAllowed :
      (port : ℤ) (names : String × String) (svc_port : String) (proxy : _) (es : List Endpoint)
      (a : _)
      → has_port (reserved_ports ports) port ≡ false
      → Each
          (IsAllowed ports proto)
          (with_stream_endpoints N S proto port names svc_port proxy es a)
  unfolding with_stream_endpoints
  with_stream_endpoints-IsAllowed port names svc_port proxy [] a free = tt
  with_stream_endpoints-IsAllowed port names svc_port proxy (e ∷ es) a free = record {
    free = absent-All (reserved_ports ports) port free;
    protocol = refl;
    endpoints = λ h. cc;
  }

  referred-IsAllowed :
      (port : ℤ) (parts : List String)
      → has_port (reserved_ports ports) port ≡ false
      → Each (IsAllowed ports proto) (referred N S proto port parts)
  unfolding referred
  referred-IsAllowed port [] free = tt
  referred-IsAllowed port (a ∷ []) free = tt
  referred-IsAllowed port (ns_name ∷ svc_port ∷ flags) free =
      option-match (Each (IsAllowed ports proto)) (parse_name_ns ns_name) _ _ tt (λ names.
        option-match (Each (IsAllowed ports proto)) (S.get_service ns_name) _ _ tt
          (λ a. with_stream_endpoints-IsAllowed port names svc_port _ _ a free))

  stream_service-IsAllowed :
      (port svc_ref : String)
      → Each (IsAllowed ports proto) (stream_service N S proto ports port svc_ref)
  unfolding stream_service
  stream_service-IsAllowed port svc_ref =
      if-cases (Each (IsAllowed ports proto))
        ((atoi port).1 || has_port (reserved_ports ports) (atoi port).0) _ _ (λ skipped. tt)
        (λ kept. referred-IsAllowed (atoi port).0 (split_colon svc_ref) (ground (arith, kept)))

  stream_services-AreAllowed :
      (data_map : Map String)
      → All (IsAllowed ports proto) (stream_services N S proto ports data_map)
  unfolding stream_services
  stream_services-AreAllowed [] = tt
  stream_services-AreAllowed ((port, svc_ref) ∷ data_map) =
      let rest = stream_services-AreAllowed data_map in
      elim (Option-cases (stream_service N S proto ports port svc_ref)) [
        | inl missing ↦ rw (stream_services, missing) rest
        | inr (svc, found) ↦
            rw (stream_services, found)
              (
                subst (Each (IsAllowed ports proto)) found (stream_service-IsAllowed port svc_ref),
                rest,
              )
      ]

  -- Every service that is allowed, and the ports do not go down.
  pub record IsStreamList (services : Slice L4Service) : Type 0 where
    pub allowed : All (IsAllowed ports proto) (elems services)
    pub sorted : Pairs (λ a b. ltb_ℤ b.port a.port ≡ false) (elems services)

  by_port-IsStrictWeak : IsStrictWeak (λ (a b : L4Service). ltb_ℤ a.port b.port)
  by_port-IsStrictWeak = record {
    asymmetric = λ a b h. ground (arith, h);
    passes = λ a b c h k. ground (arith, h, k);
  }

  -- Each stream service of the result has the given protocol, at least one endpoint, and a port that is
  -- none of the five of `ListenPorts` (HTTP, HTTPS, SSLProxy, Health, Default) and not 10245, 10246
  -- or 10247, and the ports do not go down.
  pub get_stream_services-IsStreamList :
      (get_config_map : String → Option (Map String)) (name : String)
      → IsStreamList (get_stream_services N S proto ports get_config_map name)
  unfolding get_stream_services
  get_stream_services-IsStreamList get_config_map name =
      let none_found : IsStreamList (some []) = record { allowed = tt; sorted = tt } in
      if-cases IsStreamList (name == "") _ _ (λ unset. none_found)
        (λ set. option-match IsStreamList (parse_name_ns name) _ _ none_found (λ names.
          option-match IsStreamList (get_config_map name) _ _ none_found (λ data_map.
            let by_port : L4Service → L4Service → Bool = λ a b. ltb_ℤ a.port b.port in
            let services = stream_services N S proto ports data_map in
            record {
              allowed =
                  subst (All (IsAllowed ports proto))
                    (sym (elems-from_nil (slice_stable by_port services)))
                    (slice_stable-All by_port (IsAllowed ports proto) services
                      (stream_services-AreAllowed data_map));
              sorted =
                  subst (Pairs (λ a b. ltb_ℤ b.port a.port ≡ false))
                    (sym (elems-from_nil (slice_stable by_port services)))
                    (Pairs-map (Stable by_port (λ a b. Unit)) _ (slice_stable by_port services)
                      (λ a b h. h.0)
                      (slice_stable-Stable by_port by_port-IsStrictWeak (λ a b. Unit) services
                        (Pairs-any (λ a b. Unit) services (λ a b. tt))));
            })))
