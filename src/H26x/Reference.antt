-- ===== src/H26x/Reference.antt =====
-- The scan that counts zeros finds the first start code prefix.
use uvg_rtp.Prelude.{ℕ, zero, suc, ◌+◌, ◌≡◌, refl, ap, ◌∙◌, some, List, [], ◌∷◌, arith}
use uvg_rtp.H26x.StartCode.{first_start_code}
use uvg_rtp.H26x.Scan.{Zeros, scan, z0, z1, z2, z3}

scan_other :
    (z : Zeros) (pos b : ℕ) (rest : List ℕ)
    → scan z pos (suc (suc b) ∷ rest) ≡ scan z0 (pos + 1) rest
scan_other z pos b rest = ground arith

-- With the zeros that were counted put back in front.
abbrev Finds : ℕ → List ℕ → Type 0
Finds pos rest =
    (scan z0 pos rest ≡ first_start_code pos rest)
    × (scan z1 (pos + 1) rest ≡ first_start_code pos (0 ∷ rest))
    × (scan z2 (pos + 2) rest ≡ first_start_code pos (0 ∷ 0 ∷ rest))
    × (scan z3 (pos + 3) rest ≡ first_start_code pos (0 ∷ 0 ∷ 0 ∷ rest))

place : (a b pos : ℕ) → pos + a + b ≡ pos + b + a
place a b pos = omega arith

finds : (pos : ℕ) (rest : List ℕ) → Finds pos rest
unfolding first_start_code
finds pos [] = (refl, refl, refl, refl)
finds pos (zero ∷ rest) =
    let here = finds pos rest in
    let next = finds (pos + 1) rest in
    (
      here.1,
      ap (λ (p : ℕ). scan z2 p rest) (omega arith) ∙ here.2,
      ap (λ (p : ℕ). scan z3 p rest) (omega arith) ∙ here.3,
      ap (λ (p : ℕ). scan z3 p rest) (place 3 1 pos) ∙ next.3,
    )
finds pos (suc zero ∷ rest) = (
  (finds (pos + 1) rest).0,
  (finds (pos + 1 + 1) rest).0,
  ap (λ (p : ℕ). some (p, 3)) (omega arith),
  ap (λ (p : ℕ). some (p, 4)) (omega arith),
)
finds pos (suc (suc b) ∷ rest) = (
  scan_other z0 pos b rest ∙ (finds (pos + 1) rest).0,
  scan_other z1 (pos + 1) b rest ∙ (finds (pos + 1 + 1) rest).0,
  scan_other z2 (pos + 2) b rest
      ∙ ap (λ (p : ℕ). scan z0 p rest) (omega arith)
      ∙ (finds (pos + 1 + 1 + 1) rest).0,
  scan_other z3 (pos + 3) b rest
      ∙ ap (λ (p : ℕ). scan z0 p rest) (omega arith)
      ∙ (finds (pos + 1 + 1 + 1 + 1) rest).0,
)

pub scan-first_start_code : (pos : ℕ) (rest : List ℕ) → scan z0 pos rest ≡ first_start_code pos rest
scan-first_start_code pos rest = (finds pos rest).0
