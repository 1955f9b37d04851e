-- ===== src/Api.antt =====
-- The Kubernetes API types (k8s.io/api, k8s.io/apimachinery), with the fields that the program reads.
use ingress_nginx.Prelude.{
  Bool, List, Option, Slice, String, ℤ, ℕ, Eq, ◌≡◌, ◌↔◌, ◌&&◌, true, false, [], ◌==◌, bool_eq,
  int_eq, string_eq, arith, refl, eq-of-test, eq_refl, pos, negsuc, zero, suc, ◌/◌, ◌%◌, ltb,
  nat_eq, if◌then◌else◌,
}
use Prim.Native.String

-- A pointer: `none` is nil, a number an address. What stands at the address is a `Heap`'s.
abbrev pub Ref : Type 0
Ref = Option ℕ

-- intstr.IntOrString: `is_string` is its `Type`, and `==` compares the three fields.
pub record IntOrString : Type 0 where
  pub is_string : Bool
  pub int_val : ℤ
  pub str_val : String

abbrev pub zero_int_or_string : IntOrString
zero_int_or_string = record { is_string = false; int_val = pos 0; str_val = "" }

abbrev pub int_or_string_beq : IntOrString → IntOrString → Bool
int_or_string_beq a b =
    a.is_string == b.is_string && (a.int_val == b.int_val && a.str_val == b.str_val)

pub int_or_string_beq_iff : (a b : IntOrString) → (int_or_string_beq a b ≡ true) ↔ (a ≡ b)
int_or_string_beq_iff a b = (
  λ h. ground (
    arith,
    eq-of-test a.is_string b.is_string,
    eq-of-test a.int_val b.int_val,
    eq-of-test a.str_val b.str_val,
  ),
  λ h. rw h (ground (arith, eq_refl b.is_string, eq_refl b.int_val, eq_refl b.str_val)),
)

instance abbrev pub int_or_string_eq : Eq IntOrString
int_or_string_eq = record { equals = int_or_string_beq; decides = int_or_string_beq_iff }

-- The decimal digits of a number; `f` bounds their number, and `suc n` is enough for `n`.
abbrev digit : ℕ → String
digit d =
    if d == 0
    then "0"
    else if d == 1
    then "1"
    else if d == 2
    then "2"
    else if d == 3
    then "3"
    else if d == 4
    then "4"
    else if d == 5
    then "5"
    else if d == 6
    then "6"
    else if d == 7
    then "7"
    else if d == 8
    then "8"
    else "9"

decimal : ℕ → ℕ → String
decimal zero n = ""
decimal (suc f) n =
    let front : String = decimal f (n / 10) in
    if ltb n 10 then digit n else String.◌++◌ front (digit (n % 10))

-- strconv.Itoa of the Go standard library.
unfoldable pub itoa : ℤ → String
unfolding decimal
itoa (pos n) = decimal (suc n) n
itoa (negsuc n) = String.◌++◌ "-" (decimal (suc (suc n)) (suc n))

-- IntOrString.String
unfoldable pub port_string : IntOrString → String
unfolding itoa
port_string p = if p.is_string then p.str_val else itoa p.int_val

itoa_tests : (itoa (pos 8080) ≡ "8080") × (itoa (pos 0) ≡ "0") × (itoa (negsuc 11) ≡ "-12")
unfolding itoa
itoa_tests = (refl, refl, refl)

-- networking.PathType
pub data PathType : Type 0 where
  exact prefix implementation_specific : PathType

pub record ServicePort : Type 0 where
  pub name : String
  pub protocol : String
  pub port : ℤ
  pub target_port : IntOrString

pub record Service : Type 0 where
  pub namespace : String
  pub name : String
  pub service_type : String
  pub cluster_ip : String
  pub external_name : String
  pub ports : List ServicePort

-- &apiv1.Service{}
abbrev pub zero_service : Service
zero_service = record {
  namespace = "";
  name = "";
  service_type = "";
  cluster_ip = "";
  external_name = "";
  ports = [];
}

pub record ObjectReference : Type 0 where
  pub uid : String
  pub resource_version : String

pub record IngressBackend : Type 0 where
  pub service_name : String
  pub service_port : IntOrString

pub record HttpPath : Type 0 where
  pub path : String
  pub path_type : Option PathType
  pub backend : IngressBackend

-- `http` is nil or the paths of the rule.
pub record Rule : Type 0 where
  pub host : String
  pub http : Slice HttpPath

pub record Tls : Type 0 where
  pub hosts : List String
  pub secret_name : String

-- k8s.io/api/core/v1: the endpoints of a service.
pub record EndpointPort : Type 0 where
  pub name : String
  pub port : ℤ
  pub protocol : String

pub record EndpointAddress : Type 0 where
  pub ip : String
  pub target_ref : Ref

pub record EndpointSubset : Type 0 where
  pub addresses : List EndpointAddress
  pub ports : List EndpointPort

-- cache.MetaNamespaceKeyFunc
unfoldable pub meta_namespace_key : String → String → String
meta_namespace_key namespace name =
    if namespace == "" then name else String.◌++◌ namespace (String.◌++◌ "/" name)
