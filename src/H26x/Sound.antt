-- ===== src/H26x/Sound.antt =====
-- src/formats/h26x.cc: what is found by find_h26x_start_code() is a start code prefix.
use mathlib.Core.Path.{subst}
use uvg_rtp.Prelude.{
  length, length-append, drop, replicate, ℕ, zero, suc, ◌+◌, ◌-◌, ◌≤◌, ◌≡◌, refl, sym, ap, ◌∙◌, ◌⊎◌,
  inl, inr, some, List, [], ◌∷◌, ◌++◌, append_assoc, arith,
}
use uvg_rtp.H26x.Headers.{Codec, h264, h265, h266}
use uvg_rtp.H26x.ZeroBytes.{AllBytes}
use uvg_rtp.H26x.StartCode.{Found, get_start_code_range, find_h26x_start_code, first_start_code}
use uvg_rtp.H26x.Search.{whole_dwords}
use uvg_rtp.H26x.FindsFirst.{find_h26x_start_code_dwords, find_h26x_start_code_octets}

-- A prefix of n octets.
abbrev pub code : ℕ → List ℕ
code n = replicate (n - 1) 0 ++ (1 ∷ [])

-- A prefix of n octets ends at p, k octets behind `pos`.
abbrev pub Ends : ℕ → List ℕ → ℕ → ℕ → Type 0
Ends pos rest p n =
    (k : ℕ) × (p ≡ pos + k + n)
    × (3 ≤ n)
    × (n ≤ 4)
    × (k + n ≤ length rest)
    × (drop k rest ≡ code n ++ drop (k + n) rest)

drop-suc_add : (k n b : ℕ) (rest : List ℕ) → drop (suc k + n) (b ∷ rest) ≡ drop (k + n) rest
drop-suc_add k n b rest = ap (λ (m : ℕ). drop m (b ∷ rest)) (suc_add k n)
  where
    suc_add : (k n : ℕ) → suc k + n ≡ suc (k + n)
    suc_add k n = omega arith

Ends-cons : (pos b p n : ℕ) (rest : List ℕ) → Ends (pos + 1) rest p n → Ends pos (b ∷ rest) p n
Ends-cons pos b p n rest (k, place, low, high, fits, same) = (
  suc k,
  omega arith,
  low,
  high,
  omega arith,
  same ∙ ap (λ (r : List ℕ). code n ++ r) (sym (drop-suc_add k n b rest)),
)

Some-eq : (a b : ℕ × ℕ) → (let f : Found = some a in f) ≡ some b → a ≡ b
Some-eq a b h = cc

-- A prefix begins here, or is found in the rest.
first_start_code-cons :
    (pos : ℕ) (rest : List ℕ) (p n : ℕ)
    → first_start_code pos rest ≡ some (p, n)
    → Ends pos rest p n ⊎ (first_start_code (pos + 1) (drop 1 rest) ≡ some (p, n))
unfolding first_start_code
first_start_code-cons pos [] p n h = inr h
first_start_code-cons pos (suc b ∷ rest) p n h = inr h
first_start_code-cons pos (zero ∷ []) p n h = inr h
first_start_code-cons pos (zero ∷ suc b ∷ rest) p n h = inr h
first_start_code-cons pos (zero ∷ zero ∷ []) p n h = inr h
first_start_code-cons pos (zero ∷ zero ∷ suc zero ∷ rest) p n h = inl (
    subst (λ (r : ℕ × ℕ). Ends pos (0 ∷ 0 ∷ 1 ∷ rest) r.0 r.1) (Some-eq (pos + 3, 3) (p, n) h)
      (0, omega arith, omega arith, omega arith, omega arith, refl))
first_start_code-cons pos (zero ∷ zero ∷ suc (suc b) ∷ rest) p n h = inr h
first_start_code-cons pos (zero ∷ zero ∷ zero ∷ []) p n h = inr h
first_start_code-cons pos (zero ∷ zero ∷ zero ∷ zero ∷ rest) p n h = inr h
first_start_code-cons pos (zero ∷ zero ∷ zero ∷ suc zero ∷ rest) p n h = inl (
    subst (λ (r : ℕ × ℕ). Ends pos (0 ∷ 0 ∷ 0 ∷ 1 ∷ rest) r.0 r.1) (Some-eq (pos + 4, 4) (p, n) h)
      (0, omega arith, omega arith, omega arith, omega arith, refl))
first_start_code-cons pos (zero ∷ zero ∷ zero ∷ suc (suc b) ∷ rest) p n h = inr h

first_start_code-Ends :
    (rest : List ℕ) (pos p n : ℕ) → first_start_code pos rest ≡ some (p, n) → Ends pos rest p n
unfolding first_start_code
first_start_code-Ends [] pos p n h = cc
first_start_code-Ends (b ∷ rest) pos p n h = elim (first_start_code-cons pos (b ∷ rest) p n h) [
  | inl here ↦ here
  | inr later ↦ Ends-cons pos b p n rest (first_start_code-Ends rest (pos + 1) p n later)
]

whole_dwords-prefix : (rest : List ℕ) → (tail : List ℕ) × (rest ≡ whole_dwords rest ++ tail)
unfolding whole_dwords
whole_dwords-prefix [] = ([], refl)
whole_dwords-prefix (a ∷ []) = (a ∷ [], refl)
whole_dwords-prefix (a ∷ b ∷ []) = (a ∷ b ∷ [], refl)
whole_dwords-prefix (a ∷ b ∷ c ∷ []) = (a ∷ b ∷ c ∷ [], refl)
whole_dwords-prefix (a ∷ b ∷ c ∷ d ∷ rest) =
    let (tail, same) = whole_dwords-prefix rest in
    (tail, ap (λ (r : List ℕ). a ∷ b ∷ c ∷ d ∷ r) same)

drop-append_le : (n : ℕ) (xs ys : List ℕ) → n ≤ length xs → drop n (xs ++ ys) ≡ drop n xs ++ ys
drop-append_le zero xs ys h = refl
drop-append_le (suc n) [] ys h = absurd (omega arith)
drop-append_le (suc n) (x ∷ xs) ys h = drop-append_le n xs ys (omega arith)

Ends-append : (pos : ℕ) (xs ys : List ℕ) (p n : ℕ) → Ends pos xs p n → Ends pos (xs ++ ys) p n
Ends-append pos xs ys p n (k, place, low, high, fits, same) = (
  k,
  place,
  low,
  high,
  omega (arith, length-append xs ys),
  drop-append_le k xs ys (omega arith)
      ∙ ap (λ (r : List ℕ). r ++ ys) same
      ∙ append_assoc (code n) (drop (k + n) xs) ys
      ∙ ap (λ (r : List ℕ). code n ++ r) (sym (drop-append_le (k + n) xs ys fits)),
)

dwords_end :
    (c : Codec) (data_ : List ℕ) (offset p n : ℕ)
    → get_start_code_range c ≡ 4
    → AllBytes data_
    → find_h26x_start_code c data_ offset ≡ some (p, n)
    → Ends offset (drop offset data_) p n
dwords_end c data_ offset p n four bytes h =
    let (tail, same) = whole_dwords-prefix (drop offset data_) in
    subst (λ (r : List ℕ). Ends offset r p n) (sym same)
      (Ends-append offset (whole_dwords (drop offset data_)) tail p n (
        first_start_code-Ends (whole_dwords (drop offset data_)) offset p n
          (sym (find_h26x_start_code_dwords c data_ offset four bytes) ∙ h)))

pub find_h26x_start_code-Ends :
    (c : Codec) (data_ : List ℕ) (offset p n : ℕ)
    → AllBytes data_
    → find_h26x_start_code c data_ offset ≡ some (p, n)
    → Ends offset (drop offset data_) p n
unfolding get_start_code_range
find_h26x_start_code-Ends h264 data_ offset p n bytes h =
    elim (find_h26x_start_code_octets data_ offset bytes) [
      | inl same ↦ first_start_code-Ends (drop offset data_) offset p n (sym same ∙ h)
      | inr (nothing, at_end) ↦ cc
    ]
find_h26x_start_code-Ends h265 data_ offset p n bytes h =
    dwords_end h265 data_ offset p n refl bytes h
find_h26x_start_code-Ends h266 data_ offset p n bytes h =
    dwords_end h266 data_ offset p n refl bytes h
