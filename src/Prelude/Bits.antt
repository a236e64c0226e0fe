-- ===== src/Prelude/Bits.antt =====
-- Facts about `bit_or` and `bit_xor` at variables: disjoint bits add up, and exclusive or cancels.
use Prim.Native.Nat.{
  ℕ, zero, suc, ◌+◌, ◌-◌, ◌*◌, ◌/◌, ◌%◌, ◌^◌, ◌≤◌, ◌<◌, max, min, bit_and, bit_and-bitwise, bit_or,
  bit_xor, digits, bitwise, differ, bit_or-bitwise, bit_xor-bitwise,
}
use mathlib.Core.Path.{◌≡◌, refl, sym, ap, ◌∙◌}
use native.Mathlib.Omega.{arith}
use native.Mathlib.Nat.{mul_assoc, mod-lt, mod-add-div', add-mul-mod_self_right, mod-eq_of_lt}

-- One recursion serves the three operations: with digits enough, the count does not matter.
module _ (z : ℕ → ℕ) (f : ℕ → ℕ → ℕ) where
  digits_enough :
      (less more low high : ℕ)
      → low ≤ less
      → low ≤ more
      → digits z f less low high ≡ digits z f more low high
  digits_enough less more zero high p q = at_end less ∙ sym (at_end more)
    where
      at_end : (k : ℕ) → digits z f k zero high ≡ z high
      at_end zero = refl
      at_end (suc k) = refl
  digits_enough zero more (suc low) high p q = absurd (omega arith)
  digits_enough (suc less) zero (suc low) high p q = absurd (omega arith)
  digits_enough (suc less) (suc more) (suc low) high p q =
      ap (λ (r : ℕ). r * 2 + f (suc low % 2) (high % 2))
        (digits_enough less more (suc low / 2) (high / 2) (omega arith) (omega arith))

  lowest_digit :
      (low high : ℕ)
      → bitwise z f (suc low) high
        ≡ bitwise z f (suc low / 2) (high / 2) * 2 + f (suc low % 2) (high % 2)
  lowest_digit low high =
      ap (λ (r : ℕ). r * 2 + f (suc low % 2) (high % 2))
        (digits_enough low (suc low / 2) (suc low / 2) (high / 2) (omega arith) (omega arith))

zero-bit_or : (v : ℕ) → bit_or 0 v ≡ v
zero-bit_or v = bit_or-bitwise 0 v

bit_or_step : (v w : ℕ) → bit_or v w ≡ bit_or (v / 2) (w / 2) * 2 + max (v % 2) (w % 2)
bit_or_step zero w = omega (arith, zero-bit_or w, zero-bit_or (w / 2))
bit_or_step (suc v) w =
    bit_or-bitwise (suc v) w
    ∙ lowest_digit (λ r. r) max v w
    ∙ ap (λ (r : ℕ). r * 2 + max (suc v % 2) (w % 2)) (sym (bit_or-bitwise (suc v / 2) (w / 2)))

bit_or-zero_fuel : (n a : ℕ) → a ≤ n → bit_or a 0 ≡ a
bit_or-zero_fuel n zero h = zero-bit_or 0
bit_or-zero_fuel zero (suc a) h = absurd (omega arith)
bit_or-zero_fuel (suc n) (suc a) h =
    omega (arith, bit_or_step (suc a) 0, bit_or-zero_fuel n (suc a / 2) (omega arith))

double_half : (x : ℕ) → x * 2 / 2 ≡ x
double_half x = omega arith

-- A number that fits below the lowest bit of the other is added.
pub bit_or_disjoint : (k a b : ℕ) → b < 2 ^ k → bit_or (a * 2 ^ k) b ≡ a * 2 ^ k + b
bit_or_disjoint zero a b h =
    let z : b ≡ 0 = omega arith in
    rw z (bit_or-zero_fuel (a * 1) (a * 1) (omega arith) ∙ omega arith)
bit_or_disjoint (suc k) a b h =
    let pow : 2 ^ suc k ≡ 2 ^ k * 2 = omega arith in
    let twice : a * 2 ^ suc k ≡ a * 2 ^ k * 2 =
      ap (λ (x : ℕ). a * x) pow ∙ sym (mul_assoc a (2 ^ k) 2) in
    let ih = bit_or_disjoint k a (b / 2) (omega arith) in
    let half : a * 2 ^ suc k / 2 ≡ a * 2 ^ k = omega arith in
    let e : bit_or (a * 2 ^ suc k / 2) (b / 2) ≡ a * 2 ^ k + b / 2 =
      ap (λ (x : ℕ). bit_or x (b / 2)) half ∙ ih in
    omega (arith, bit_or_step (a * 2 ^ suc k) b)

zero-bit_xor : (b : ℕ) → bit_xor 0 b ≡ b
zero-bit_xor b = bit_xor-bitwise 0 b

bit_xor_step : (v w : ℕ) → bit_xor v w ≡ bit_xor (v / 2) (w / 2) * 2 + differ (v % 2) (w % 2)
bit_xor_step zero w = omega (arith, zero-bit_xor w, zero-bit_xor (w / 2))
bit_xor_step (suc v) w =
    bit_xor-bitwise (suc v) w
    ∙ lowest_digit (λ r. r) differ v w
    ∙ ap (λ (r : ℕ). r * 2 + differ (suc v % 2) (w % 2)) (sym (bit_xor-bitwise (suc v / 2) (w / 2)))

differ_bit : (a b : ℕ) → a < 2 → b < 2 → differ a b < 2
differ_bit zero b p q = q
differ_bit (suc a) zero p q = p
differ_bit (suc zero) (suc zero) p q = omega arith
differ_bit (suc zero) (suc (suc b)) p q = absurd (omega arith)
differ_bit (suc (suc a)) (suc b) p q = absurd (omega arith)

differ_twice : (a b : ℕ) → a < 2 → b < 2 → differ (differ a b) b ≡ a
differ_twice zero zero p q = refl
differ_twice zero (suc zero) p q = refl
differ_twice zero (suc (suc b)) p q = absurd (omega arith)
differ_twice (suc zero) zero p q = refl
differ_twice (suc zero) (suc zero) p q = refl
differ_twice (suc zero) (suc (suc b)) p q = absurd (omega arith)
differ_twice (suc (suc a)) b p q = absurd (omega arith)

bit_xor_halves :
    (a b : ℕ)
    → (bit_xor a b / 2 ≡ bit_xor (a / 2) (b / 2)) × (bit_xor a b % 2 ≡ differ (a % 2) (b % 2))
bit_xor_halves a b =
    let d = differ_bit (a % 2) (b % 2) (omega arith) (omega arith) in
    (omega (arith, bit_xor_step a b), omega (arith, bit_xor_step a b))

bit_xor-self_fuel : (n b : ℕ) → b ≤ n → bit_xor b b ≡ 0
bit_xor-self_fuel n zero h = zero-bit_xor 0
bit_xor-self_fuel zero (suc b) h = absurd (omega arith)
bit_xor-self_fuel (suc n) (suc b) h =
    let ih = bit_xor-self_fuel n (suc b / 2) (omega arith) in
    let t = differ_twice 0 (suc b % 2) (omega arith) (omega arith) in
    omega (arith, bit_xor_step (suc b) (suc b))

bit_xor_twice_fuel : (n a b : ℕ) → a + b ≤ n → bit_xor (bit_xor a b) b ≡ a
bit_xor_twice_fuel zero a b h =
    let ea : a ≡ 0 = omega arith in
    let eb : b ≡ 0 = omega arith in
    rw (ea, eb) (ap (λ (x : ℕ). bit_xor x 0) (zero-bit_xor 0) ∙ zero-bit_xor 0)
bit_xor_twice_fuel (suc n) zero zero h =
    ap (λ (x : ℕ). bit_xor x 0) (zero-bit_xor 0) ∙ zero-bit_xor 0
bit_xor_twice_fuel (suc n) zero (suc b) h =
    ap (λ (x : ℕ). bit_xor x (suc b)) (zero-bit_xor (suc b))
    ∙ bit_xor-self_fuel (suc b) (suc b) (omega arith)
bit_xor_twice_fuel (suc n) (suc a) b h =
    let ih = bit_xor_twice_fuel n (suc a / 2) (b / 2) (omega arith) in
    let (half, low) = bit_xor_halves (suc a) b in
    let t = differ_twice (suc a % 2) (b % 2) (omega arith) (omega arith) in
    bit_xor_step (bit_xor (suc a) b) b
    ∙ ap (λ (x : ℕ). bit_xor x (b / 2) * 2 + differ (bit_xor (suc a) b % 2) (b % 2)) half
    ∙ ap (λ (x : ℕ). x * 2 + differ (bit_xor (suc a) b % 2) (b % 2)) ih
    ∙ ap (λ (x : ℕ). suc a / 2 * 2 + differ x (b % 2)) low
    ∙ ap (λ (x : ℕ). suc a / 2 * 2 + x) t
    ∙ omega arith

pub bit_xor_twice : (a b : ℕ) → bit_xor (bit_xor a b) b ≡ a
bit_xor_twice a b = bit_xor_twice_fuel (a + b) a b (omega arith)

pub bit_xor_cancel : (a c b : ℕ) → bit_xor a b ≡ bit_xor c b → a ≡ c
bit_xor_cancel a c b e = sym (bit_xor_twice a b) ∙ ap (λ (x : ℕ). bit_xor x b) e ∙ bit_xor_twice c b

differ_comm : (a b : ℕ) → a < 2 → b < 2 → differ a b ≡ differ b a
differ_comm zero zero p q = refl
differ_comm zero (suc b) p q = refl
differ_comm (suc a) zero p q = refl
differ_comm (suc zero) (suc zero) p q = refl
differ_comm (suc zero) (suc (suc b)) p q = absurd (omega arith)
differ_comm (suc (suc a)) (suc b) p q = absurd (omega arith)

bit_xor_comm_fuel : (n a b : ℕ) → a + b ≤ n → bit_xor a b ≡ bit_xor b a
bit_xor_comm_fuel n zero zero h = refl
bit_xor_comm_fuel zero zero (suc b) h = absurd (omega arith)
bit_xor_comm_fuel zero (suc a) b h = absurd (omega arith)
bit_xor_comm_fuel (suc n) zero (suc b) h =
    bit_xor_step 0 (suc b)
    ∙ ap (λ (x : ℕ). x * 2 + differ 0 (suc b % 2)) (bit_xor_comm_fuel n 0 (suc b / 2) (omega arith))
    ∙ ap (λ (x : ℕ). bit_xor (suc b / 2) 0 * 2 + x)
        (differ_comm 0 (suc b % 2) (omega arith) (omega arith))
    ∙ sym (bit_xor_step (suc b) 0)
bit_xor_comm_fuel (suc n) (suc a) b h =
    bit_xor_step (suc a) b
    ∙ ap (λ (x : ℕ). x * 2 + differ (suc a % 2) (b % 2))
        (bit_xor_comm_fuel n (suc a / 2) (b / 2) (omega arith))
    ∙ ap (λ (x : ℕ). bit_xor (b / 2) (suc a / 2) * 2 + x)
        (differ_comm (suc a % 2) (b % 2) (omega arith) (omega arith))
    ∙ sym (bit_xor_step b (suc a))

pub bit_xor_comm : (a b : ℕ) → bit_xor a b ≡ bit_xor b a
bit_xor_comm a b = bit_xor_comm_fuel (a + b) a b (omega arith)

-- The middle term of a double exclusive or is determined by the result.
pub bit_xor_middle : (a b c s : ℕ) → bit_xor (bit_xor a b) s ≡ bit_xor (bit_xor a c) s → b ≡ c
bit_xor_middle a b c s e =
    bit_xor_cancel b c a
      (bit_xor_comm b a ∙ bit_xor_cancel (bit_xor a b) (bit_xor a c) s e ∙ bit_xor_comm a c)

pub zero-bit_and : (v : ℕ) → bit_and 0 v ≡ 0
zero-bit_and v = bit_and-bitwise 0 v

-- The digits of a conjunction are the smaller ones.
pub bit_and_step : (v w : ℕ) → bit_and v w ≡ min (v % 2) (w % 2) + 2 * bit_and (v / 2) (w / 2)
bit_and_step zero w = rw (zero-bit_and w, zero-bit_and (w / 2)) (omega arith)
bit_and_step (suc v) w =
    let halves = bit_and-bitwise (suc v / 2) (w / 2) in
    let digit = bit_and-bitwise (suc v) w ∙ lowest_digit (λ r. 0) min v w in omega arith

none_in_common : (bound v : ℕ) → v ≤ bound → bit_and v 0 ≡ 0
none_in_common zero v h =
    let nothing : v ≡ 0 = omega arith in ap (λ (n : ℕ). bit_and n 0) nothing ∙ zero-bit_and 0
none_in_common (suc bound) zero h = zero-bit_and 0
none_in_common (suc bound) (suc v) h =
    let halves = none_in_common bound (suc v / 2) (omega arith) in
    omega (arith, bit_and_step (suc v) 0)

mod_double : (a m : ℕ) → 1 ≤ m → a % (m * 2) ≡ a / 2 % m * 2 + a % 2
mod_double a m h =
    let q : ℕ = a / 2 / m in
    let r : ℕ = a / 2 % m * 2 + a % 2 in
    let small = mod-lt (a / 2) h in
    let parts : a / 2 % m + q * m ≡ a / 2 = mod-add-div' (a / 2) m in
    let scaled : q * (m * 2) ≡ q * m * 2 = sym (mul_assoc q m 2) in
    let whole : a ≡ r + q * (m * 2) = omega arith in
    ap (λ (x : ℕ). x % (m * 2)) whole
    ∙ add-mul-mod_self_right r q (m * 2)
    ∙ mod-eq_of_lt (omega arith)

pow_pos : (k : ℕ) → 1 ≤ 2 ^ k
pow_pos zero = omega arith
pow_pos (suc k) = omega (arith, pow_pos k)

-- A mask of ones keeps the low bits.
pub bit_and_low : (k a : ℕ) → bit_and a (2 ^ k - 1) ≡ a % 2 ^ k
bit_and_low zero a = none_in_common a a (omega arith) ∙ omega arith
bit_and_low (suc k) a =
    let pow : 2 ^ suc k ≡ 2 ^ k * 2 = omega arith in
    let pos = pow_pos k in
    let half : (2 ^ suc k - 1) / 2 ≡ 2 ^ k - 1 = omega arith in
    let odd : (2 ^ suc k - 1) % 2 ≡ 1 = omega arith in
    let ih : bit_and (a / 2) ((2 ^ suc k - 1) / 2) ≡ a / 2 % 2 ^ k =
      ap (bit_and (a / 2)) half ∙ bit_and_low k (a / 2) in
    let goal : a % 2 ^ suc k ≡ a / 2 % 2 ^ k * 2 + a % 2 =
      ap (λ (x : ℕ). a % x) pow ∙ mod_double a (2 ^ k) pos in
    omega (arith, bit_and_step a (2 ^ suc k - 1))

-- The mask 0xfffffd keeps 24 bits but for the second.
pub bit_and_fffffd : (w : ℕ) → bit_and w 0xfffffd ≡ w % 16777216 - w / 2 % 2 * 2
bit_and_fffffd w =
    omega
      (arith, bit_and_step w 0xfffffd, bit_and_step (w / 2) 0x7ffffe, bit_and_low 22 (w / 2 / 2))
