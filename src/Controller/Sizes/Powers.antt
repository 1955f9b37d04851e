-- ===== src/Controller/Sizes/Powers.antt =====
-- nextPowerOf2 gives the least power of two that is not below its argument.
use Prim.Native.Nat.{bit_or}
use ingress_nginx.Prelude.{
  ℕ, zero, suc, ◌+◌, ◌-◌, ◌*◌, ◌/◌, ◌%◌, ◌≤◌, ◌<◌, ◌≡◌, ◌∙◌, refl, arith, inl, inr, Bool-cases, ltb,
}
use ingress_nginx.Controller.Sizes.{smear, smear_all, next_power_of2, nginx_hash_bucket_size}
use ingress_nginx.Controller.Sizes.Bits.{bit, bit-bit_or}

-- 2 ^ k
unfoldable pub two_to : ℕ → ℕ
two_to zero = 1
two_to (suc k) = two_to k * 2

bit-zero : (i : ℕ) → bit 0 i ≡ 0
unfolding bit
bit-zero zero = refl
bit-zero (suc i) = bit-zero i

-- Without bits, a number below a bound is 0.
no_bits : (fuel x : ℕ) → x ≤ fuel → ((i : ℕ) → bit x i ≡ 0) → x ≡ 0
unfolding bit
no_bits zero x h z = omega arith
no_bits (suc fuel) zero h z = refl
no_bits (suc fuel) (suc x) h z =
    omega (arith, z 0, no_bits fuel (suc x / 2) (omega arith) (λ i. z (suc i)))

-- A number whose bits are those below `k` is the one before 2 ^ k.
all_ones :
    (k x : ℕ) → ((i : ℕ) → i < k → bit x i ≡ 1) → ((i : ℕ) → k ≤ i → bit x i ≡ 0) → x + 1 ≡ two_to k
unfolding bit two_to
all_ones zero x ones zeros = omega (arith, no_bits x x (omega arith) (λ i. zeros i (omega arith)))
all_ones (suc k) x ones zeros = omega (
  arith,
  ones 0 (omega arith),
  all_ones k (x / 2) (λ i h. ones (suc i) (omega arith)) (λ i h. zeros (suc i) (omega arith)),
)

-- The leading bit.
pub record Leads (x k : ℕ) : Type 0 where
  pub lower : two_to k ≤ x
  pub upper : x < two_to (suc k)
  pub one : bit x k ≡ 1
  pub above : (i : ℕ) → k < i → bit x i ≡ 0

above_double : (x k : ℕ) → Leads (x / 2) k → (i : ℕ) → suc k < i → bit x i ≡ 0
unfolding bit
above_double x k l zero h = absurd (omega arith)
above_double x k l (suc i) h = l.above i (omega arith)

Leads-double : (x k : ℕ) → Leads (x / 2) k → Leads x (suc k)
unfolding bit two_to
Leads-double x k l = record {
  lower = omega (arith, l.lower);
  upper = omega (arith, l.upper);
  one = l.one;
  above = λ i h. above_double x k l i h;
}

Leads-one : Leads 1 0
unfolding bit two_to
Leads-one = record {
  lower = omega arith;
  upper = omega arith;
  one = refl;
  above = λ i h. beyond i h;
}
  where
    beyond : (i : ℕ) → 0 < i → bit 1 i ≡ 0
    beyond zero h = absurd (omega arith)
    beyond (suc i) h = bit-zero i

leading : (fuel x : ℕ) → x ≤ fuel → 1 ≤ x → (k : ℕ) × Leads x k
leading zero x h p = absurd (omega arith)
leading (suc fuel) zero h p = absurd (omega arith)
leading (suc fuel) (suc zero) h p = (0, Leads-one)
leading (suc fuel) (suc (suc x)) h p =
    let half = leading fuel (suc (suc x) / 2) (omega arith) (omega arith) in
    (suc half.0, Leads-double (suc (suc x)) half.0 half.1)

-- A division by `power` is a shift by `s` places.
IsShift : ℕ → ℕ → Type 0
IsShift s power = (x i : ℕ) → bit (x / power) i ≡ bit x (i + s)

IsShift-one : IsShift 1 2
unfolding IsShift bit
IsShift-one x i = let next : i + 1 ≡ suc i = omega arith in rw next refl

IsShift-twice :
    (s power square : ℕ)
    → ((x : ℕ) → x / square ≡ x / power / power)
    → IsShift s power
    → IsShift (s + s) square
unfolding IsShift
IsShift-twice s power square e shift x i =
    let places : i + (s + s) ≡ i + s + s = omega arith in
    rw (e x) (rw places (shift (x / power) i ∙ shift x (i + s)))

IsShift-two : IsShift 2 4
IsShift-two = IsShift-twice 1 2 4 (λ x. omega arith) IsShift-one

IsShift-four : IsShift 4 16
IsShift-four = IsShift-twice 2 4 16 (λ x. omega arith) IsShift-two

IsShift-eight : IsShift 8 256
IsShift-eight = IsShift-twice 4 16 256 (λ x. omega arith) IsShift-four

IsShift-sixteen : IsShift 16 65536
IsShift-sixteen = IsShift-twice 8 256 65536 (λ x. omega arith) IsShift-eight

bit_le : (x i : ℕ) → bit x i ≤ 1
unfolding bit
bit_le x zero = omega arith
bit_le x (suc i) = bit_le (x / 2) i

-- The `s` highest of the bits up to the leading one are set.
abbrev IsSmeared : ℕ → ℕ → ℕ → Type 0
IsSmeared s k x = ((i : ℕ) → i ≤ k → k < i + s → bit x i ≡ 1) × ((i : ℕ) → k < i → bit x i ≡ 0)

smear-IsSmeared :
    (s power k x : ℕ) → IsShift s power → IsSmeared s k x → IsSmeared (s + s) k (smear power x)
unfolding IsShift
smear-IsSmeared s power k x shift m = (λ i low near. set i low near, λ i high. unset i high)
  where
    set : (i : ℕ) → i ≤ k → k < i + (s + s) → bit (bit_or x (x / power)) i ≡ 1
    set i low near = elim (Bool-cases (ltb k (i + s))) [
      | inl close ↦
          omega (arith, bit-bit_or i x (x / power), m.0 i low (ground arith), bit_le (x / power) i)
      | inr far ↦ omega (
        arith,
        bit-bit_or i x (x / power),
        bit_le x i,
        shift x i,
        m.0 (i + s) (ground arith) (ground arith),
      )
    ]

    unset : (i : ℕ) → k < i → bit (bit_or x (x / power)) i ≡ 0
    unset i high =
        omega (arith, bit-bit_or i x (x / power), m.1 i high, shift x i, m.1 (i + s) (omega arith))

Leads-IsSmeared : (x k : ℕ) → Leads x k → IsSmeared 1 k x
Leads-IsSmeared x k l = (λ i low near. let same : i ≡ k = omega arith in rw same l.one, l.above)

smear_all-IsSmeared : (x k : ℕ) → IsSmeared 1 k x → IsSmeared 32 k (smear_all x)
unfolding smear_all
smear_all-IsSmeared x k m = smear-IsSmeared 16 65536 k _ IsShift-sixteen (
    smear-IsSmeared 8 256 k _ IsShift-eight (
      smear-IsSmeared 4 16 k _ IsShift-four
        (smear-IsSmeared 2 4 k _ IsShift-two (smear-IsSmeared 1 2 k x IsShift-one m))))

two_to_grows : (m k : ℕ) → m ≤ k → two_to m ≤ two_to k
unfolding two_to
two_to_grows m zero h = let same : m ≡ 0 = omega arith in rw same (omega arith)
two_to_grows m (suc k) h = elim (Bool-cases (ltb m (suc k))) [
  | inl less ↦ omega (arith, two_to_grows m k (ground arith))
  | inr last ↦ let same : m ≡ suc k = ground arith in rw same (omega arith)
]

two_to_32 : two_to 32 ≡ 4294967296
unfolding two_to
two_to_32 = refl

-- The exponent of a number that has 32 bits is less than 32.
short : (x k : ℕ) → Leads x k → x < 4294967296 → k < 32
short x k l h = elim (Bool-cases (ltb k 32)) [
  | inl less ↦ ground arith
  | inr long ↦ absurd (omega (arith, two_to_32, two_to_grows 32 k (ground arith), l.lower))
]

smear_all-ones : (x k : ℕ) → Leads x k → k < 32 → smear_all x + 1 ≡ two_to (suc k)
smear_all-ones x k l few =
    let all = smear_all-IsSmeared x k (Leads-IsSmeared x k l) in
    all_ones (suc k) (smear_all x) (λ i h. all.0 i (omega arith) (omega arith))
      (λ i h. all.1 i (omega arith))

smear_zero : smear_all 0 + 1 ≡ 1
unfolding smear_all
smear_zero = refl

-- For 1 up to 2 ^ 32, nextPowerOf2 returns the least power of two that is not below its argument.
pub next_power_of2_lem :
    (v : ℕ)
    → 1 ≤ v
    → v ≤ 4294967296
    → (k : ℕ) × (next_power_of2 v ≡ two_to k) × (v ≤ two_to k) × (two_to k < v * 2)
unfolding next_power_of2 two_to
next_power_of2_lem zero p h = absurd (omega arith)
next_power_of2_lem (suc zero) p h = (0, smear_zero, omega arith, omega arith)
next_power_of2_lem (suc (suc x)) p h =
    let top = leading (suc x) (suc x) (omega arith) (omega arith) in
    let l = top.1 in
    (
      suc top.0,
      smear_all-ones (suc x) top.0 l (short (suc x) top.0 l (omega arith)),
      omega (arith, l.upper),
      omega (arith, l.lower),
    )

-- If the longest name has at most 2 ^ 32 - 32 bytes, nginxHashBucketSize returns a power of two that
-- holds the name, two bytes more and two words of 8 bytes.
pub bucket_holds_name :
    (longest : ℕ)
    → longest ≤ 4294967264
    → (k : ℕ) × (nginx_hash_bucket_size longest ≡ two_to k)
      × (longest + 18 ≤ nginx_hash_bucket_size longest)
unfolding nginx_hash_bucket_size
bucket_holds_name longest h =
    let raw = 8 + 8 + (longest + 2 + 8 - 1 - (longest + 2 + 8 - 1) % 8) in
    let power = next_power_of2_lem raw (omega arith) (omega arith) in
    (power.0, power.1, omega (arith, power.1, power.2))
