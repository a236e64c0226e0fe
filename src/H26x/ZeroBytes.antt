-- ===== src/H26x/ZeroBytes.antt =====
-- src/formats/h26x.cc: haszero32_le() and haszero64_le(), which look for a zero octet in a word.
use uvg_rtp.Prelude.{
  ◌==◌, ==_iff, length, IsByte, bit_and_step, ℕ, zero, suc, ◌+◌, ◌-◌, ◌*◌, ◌/◌, ◌%◌, ◌^◌, ◌≤◌, ◌<◌,
  bit_and, ◌≡◌, refl, sym, ap, ◌∙◌, ◌≢◌, Bool, true, false, not, ◌||◌, List, [], ◌∷◌, arith,
}
use uvg_rtp.Prelude.{zero-bit_and, Bool-cases, inl, inr}
use native.Mathlib.Nat.{mod-lt, mod-add-div', add-mul-mod_self_right, mod-eq_of_lt}

-- (v - 0x01010101) & ~v & 0x80808080, of a 32-bit word.
unfoldable pub haszero32 : ℕ → Bool
haszero32 v =
    not (bit_and (bit_and ((v + 2 ^ 32 - 0x01010101) % 2 ^ 32) (2 ^ 32 - 1 - v)) 0x80808080 == 0)

-- (v - 0x0101010101010101) & ~v & 0x8080808080808080, of a 64-bit word.
unfoldable pub haszero64 : ℕ → Bool
haszero64 v = not (
    bit_and (bit_and ((v + 2 ^ 64 - 0x0101010101010101) % 2 ^ 64) (2 ^ 64 - 1 - v))
      0x8080808080808080
    == 0)

-- The word that a little-endian machine reads from these octets.
abbrev pub le_word : List ℕ → ℕ
le_word [] = 0
le_word (b ∷ bs) = b + 256 * le_word bs

abbrev pub AllBytes : List ℕ → Type 0
AllBytes [] = Unit {0}
AllBytes (b ∷ bs) = IsByte b × AllBytes bs

abbrev pub any_zero : List ℕ → Bool
any_zero [] = false
any_zero (b ∷ bs) = b == 0 || any_zero bs

-- bit_and of words is that of their octets.
mul_swap : (k a : ℕ) → 2 ^ suc k * a ≡ 2 ^ k * a * 2
mul_swap k a = grind arith

times_one : (a : ℕ) → 0 + 2 ^ 0 * a ≡ a
times_one a = omega arith

bit_and_octets :
    (k a b c d : ℕ)
    → b < 2 ^ k
    → d < 2 ^ k
    → bit_and (b + 2 ^ k * a) (d + 2 ^ k * c) ≡ bit_and b d + 2 ^ k * bit_and a c
bit_and_octets zero a b c d p q =
    let eb : b ≡ 0 = omega arith in
    let ed : d ≡ 0 = omega arith in
    rw (eb, ed)
      (ap (λ (x : ℕ). bit_and x (0 + 2 ^ 0 * c)) (times_one a)
        ∙ ap (bit_and a) (times_one c)
        ∙ sym (times_one (bit_and a c)))
bit_and_octets (suc k) a b c d p q =
    let pa : 2 ^ suc k * a ≡ 2 ^ k * a * 2 = mul_swap k a in
    let pc : 2 ^ suc k * c ≡ 2 ^ k * c * 2 = mul_swap k c in
    let ih = bit_and_octets k a (b / 2) c (d / 2) (omega arith) (omega arith) in
    let x : ℕ = b + 2 ^ suc k * a in
    let y : ℕ = d + 2 ^ suc k * c in
    let hx : x / 2 ≡ b / 2 + 2 ^ k * a = omega arith in
    let hy : y / 2 ≡ d / 2 + 2 ^ k * c = omega arith in
    let mx : x % 2 ≡ b % 2 = omega arith in
    let my : y % 2 ≡ d % 2 = omega arith in
    let high : bit_and (x / 2) (y / 2) ≡ bit_and (b / 2) (d / 2) + 2 ^ k * bit_and a c =
      ap (λ (v : ℕ). bit_and v (y / 2)) hx ∙ ap (bit_and (b / 2 + 2 ^ k * a)) hy ∙ ih in
    omega (arith, bit_and_step x y, bit_and_step b d, mul_swap k (bit_and a c))

-- 2 ^ (8 n), and the words whose octets are all the same.
abbrev words : ℕ → ℕ
words zero = 1
words (suc n) = 256 * words n

abbrev each : ℕ → ℕ → ℕ
each x zero = 0
each x (suc n) = x + 256 * each x n

abbrev zero_bits : ℕ → ℕ → ℕ
zero_bits n v =
    bit_and (bit_and ((v + words n - each 1 n) % words n) (words n - 1 - v)) (each 128 n)

mod_octets : (x q w : ℕ) → 1 ≤ w → q < 256 → (q + 256 * x) % (256 * w) ≡ q + 256 * (x % w)
mod_octets x q w pos h =
    let small = mod-lt x pos in
    let parts : x % w + x / w * w ≡ x = mod-add-div' x w in
    let scaled : x / w * (256 * w) ≡ 256 * (x / w * w) = grind arith in
    let whole : q + 256 * x ≡ (q + 256 * (x % w)) + x / w * (256 * w) = omega arith in
    ap (λ (y : ℕ). y % (256 * w)) whole
    ∙ add-mul-mod_self_right (q + 256 * (x % w)) (x / w) (256 * w)
    ∙ mod-eq_of_lt (omega arith)

words_pos : (n : ℕ) → 1 ≤ words n
words_pos zero = omega arith
words_pos (suc n) = omega (arith, words_pos n)

each-lt : (n : ℕ) → each 1 n + 1 ≤ words n
each-lt zero = omega arith
each-lt (suc n) = omega (arith, each-lt n)

le_word-lt : (bs : List ℕ) → AllBytes bs → le_word bs + 1 ≤ words (length bs)
le_word-lt [] h = omega arith
le_word-lt (b ∷ bs) h = omega (arith, le_word-lt bs h.1)

-- The table for one octet.
-- What the mask leaves of an octet, and of all octets below `top`.
abbrev masked : ℕ → ℕ
masked b = bit_and (bit_and b (254 - b)) 128

bits_left : ℕ → ℕ
bits_left zero = 0
bits_left (suc top) = masked top + bits_left top

no_bits_left : bits_left 255 ≡ 0
unfolding bits_left
no_bits_left = refl

masked-le : (b top : ℕ) → b < top → masked b ≤ bits_left top
unfolding bits_left
masked-le b zero below = omega arith
masked-le b (suc top) below = elim (Bool-cases (b == top)) [
  | inl hit ↦ omega (arith, ap masked ((==_iff b top).0 hit))
  | inr miss ↦ omega (arith, masked-le b top (ground arith))
]

no_bit : (b : ℕ) → b < 255 → masked b ≡ 0
no_bit b h = omega (arith, masked-le b 255 h, no_bits_left)

bit_and-le : (n a b : ℕ) → a ≤ n → bit_and a b ≤ a
bit_and-le zero a b h =
    let nothing : a ≡ 0 = omega arith in rw nothing (omega (arith, zero-bit_and b))
bit_and-le (suc n) zero b h = omega (arith, zero-bit_and b)
bit_and-le (suc n) (suc a) b h =
    omega (arith, bit_and_step (suc a) b, bit_and-le n (suc a / 2) (b / 2) (omega arith))

zero_bits_octets :
    (n b v x y q r : ℕ)
    → q < 256
    → r < 256
    → (b + 256 * v + words (suc n) - each 1 (suc n)) % words (suc n) ≡ q + 256 * x
    → words (suc n) - 1 - (b + 256 * v) ≡ r + 256 * y
    → zero_bits (suc n) (b + 256 * v)
      ≡ bit_and (bit_and q r) 128 + 256 * bit_and (bit_and x y) (each 128 n)
zero_bits_octets n b v x y q r hq hr e f =
    ap (λ (t : ℕ). bit_and (bit_and t (words (suc n) - 1 - (b + 256 * v))) (each 128 (suc n))) e
    ∙ ap (λ (t : ℕ). bit_and (bit_and (q + 256 * x) t) (each 128 (suc n))) f
    ∙ ap (λ (t : ℕ). bit_and t (each 128 (suc n))) (bit_and_octets 8 x q y r hq hr)
    ∙ bit_and_octets 8 (bit_and x y) (bit_and q r) (each 128 n) 128
        (omega (arith, bit_and-le q q r)) (omega arith)

zero_bits-zero : (n v : ℕ) → v < words n → zero_bits (suc n) (0 + 256 * v) ≢ 0
zero_bits-zero n v h =
    let fits = each-lt n in
    let x : ℕ = v + words n - each 1 n - 1 in
    let whole : 0 + 256 * v + words (suc n) - each 1 (suc n) ≡ 255 + 256 * x = omega arith in
    let low =
      ap (λ (t : ℕ). t % words (suc n)) whole
      ∙ mod_octets x 255 (words n) (words_pos n) (omega arith) in
    let e =
      zero_bits_octets n 0 v (x % words n) (words n - 1 - v) 255 255 (omega arith) (omega arith) low
        (omega arith) in
    λ none_set. omega arith

zero_bits-pos :
    (n b v : ℕ)
    → 1 ≤ b
    → b < 256
    → v < words n
    → zero_bits (suc n) (b + 256 * v) ≡ 256 * zero_bits n v
zero_bits-pos n b v pos small h =
    let fits = each-lt n in
    let x : ℕ = v + words n - each 1 n in
    let whole : b + 256 * v + words (suc n) - each 1 (suc n) ≡ (b - 1) + 256 * x = omega arith in
    let low =
      ap (λ (t : ℕ). t % words (suc n)) whole
      ∙ mod_octets x (b - 1) (words n) (words_pos n) (omega arith) in
    let e =
      zero_bits_octets n b v (x % words n) (words n - 1 - v) (b - 1) (254 - (b - 1)) (omega arith)
        (omega arith) low (omega arith) in
    omega (arith, no_bit (b - 1))

-- A word has a bit set exactly when one of its octets is zero.
zero_bits_lem :
    (bs : List ℕ) → AllBytes bs → (zero_bits (length bs) (le_word bs) == 0) ≡ not (any_zero bs)
zero_bits_lem [] h = refl
zero_bits_lem (zero ∷ bs) h =
    let set = zero_bits-zero (length bs) (le_word bs) (omega (arith, le_word-lt bs h.1)) in
    ground arith
zero_bits_lem (suc b ∷ bs) h =
    let e =
      zero_bits-pos (length bs) (suc b) (le_word bs) (omega arith) h.0
        (omega (arith, le_word-lt bs h.1)) in
    let ih = zero_bits_lem bs h.1 in rw e (ground arith)

not-not : (b : Bool) → not (not b) ≡ b
not-not true = refl
not-not false = refl

pub haszero32_lem :
    (a b c d : ℕ)
    → AllBytes (a ∷ b ∷ c ∷ d ∷ [])
    → haszero32 (le_word (a ∷ b ∷ c ∷ d ∷ [])) ≡ any_zero (a ∷ b ∷ c ∷ d ∷ [])
unfolding haszero32
haszero32_lem a b c d h = ap not (zero_bits_lem (a ∷ b ∷ c ∷ d ∷ []) h) ∙ not-not _

-- The words of eight octets.
pub haszero64_lem :
    (a b c d e f g i : ℕ)
    → AllBytes (a ∷ b ∷ c ∷ d ∷ e ∷ f ∷ g ∷ i ∷ [])
    → haszero64 (le_word (a ∷ b ∷ c ∷ d ∷ e ∷ f ∷ g ∷ i ∷ []))
      ≡ any_zero (a ∷ b ∷ c ∷ d ∷ e ∷ f ∷ g ∷ i ∷ [])
unfolding haszero64
haszero64_lem a b c d e f g i h =
    ap not (zero_bits_lem (a ∷ b ∷ c ∷ d ∷ e ∷ f ∷ g ∷ i ∷ []) h) ∙ not-not _
