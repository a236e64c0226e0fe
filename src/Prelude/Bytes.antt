-- ===== src/Prelude/Bytes.antt =====
-- Byte buffers. A pointer into a buffer is the list of the bytes from there to the buffer's end, so
-- `ptr += n` is `drop n`. A read past the end has no value: it is `none`.
use Prim.Native.Nat.{ℕ, zero, suc, ◌+◌, ◌-◌, ◌*◌, ◌/◌, ◌%◌, ◌^◌, ◌≤◌, ◌<◌}
use mathlib.Core.Path.{◌≡◌, refl, ap, ◌∙◌}
use mathlib.Core.List.{List, [], ◌∷◌, ◌++◌}
use mathlib.Core.Option.{Option, none, some}
use native.Mathlib.Omega.{arith}
use uvg_rtp.Prelude.Lists.{length, get_elem?, take, drop}

infixl 5 ◌>>=◌
abbrev pub ◌>>=◌ {ℓ κ} : {A : Type ℓ} {B : Type κ} → Option A → (A → Option B) → Option B
none >>= f = none
some a >>= f = f a

-- `ntohs(*(uint16_t *)&p[i])` and `ntohl(*(uint32_t *)&p[i])`: big-endian fields.
abbrev pub be16 : ℕ → ℕ → ℕ
be16 a b = a * 256 + b

abbrev pub be32 : ℕ → ℕ → ℕ → ℕ → ℕ
be32 a b c d = ((a * 256 + b) * 256 + c) * 256 + d

unfoldable pub read16 : List ℕ → ℕ → Option ℕ
read16 p i = do a ← get_elem? p i; b ← get_elem? p (i + 1); some (be16 a b)

unfoldable pub read32 : List ℕ → ℕ → Option ℕ
read32 p i = do
  a ← get_elem? p i
  b ← get_elem? p (i + 1)
  c ← get_elem? p (i + 2)
  d ← get_elem? p (i + 3)
  some (be32 a b c d)

-- `htons` and `htonl` of a value, as the bytes that are stored.
abbrev pub put16 : ℕ → List ℕ
put16 v = (v / 256 % 256) ∷ (v % 256) ∷ []

abbrev pub put32 : ℕ → List ℕ
put32 v = (v / 16777216 % 256) ∷ (v / 65536 % 256) ∷ (v / 256 % 256) ∷ (v % 256) ∷ []

-- `memdup(p, n)` and `memcpy` from `p`: the first n bytes, if the buffer has them.
module _ {ℓ} {A : Type ℓ} where
  unfoldable pub take_exact : ℕ → List A → Option (List A)
  take_exact zero p = some []
  take_exact (suc n) [] = none
  take_exact (suc n) (x ∷ p) = do rest ← take_exact n p; some (x ∷ rest)

  pub take_exact-append : (xs ys : List A) → take_exact (length xs) (xs ++ ys) ≡ some xs
  unfolding take_exact
  take_exact-append [] ys = refl
  take_exact-append (x ∷ xs) ys = rw (take_exact-append xs ys)

  pub drop-append : (xs ys : List A) → drop (length xs) (xs ++ ys) ≡ ys
  drop-append [] ys = refl
  drop-append (x ∷ xs) ys = drop-append xs ys

  -- The copy succeeds exactly on buffers that are long enough.
  pub take_exact_total : (n : ℕ) (p : List A) → n ≤ length p → take_exact n p ≡ some (take n p)
  unfolding take_exact
  take_exact_total zero p h = refl
  take_exact_total (suc n) [] h = absurd (omega arith)
  take_exact_total (suc n) (x ∷ p) h = rw (take_exact_total n p (omega arith))

  pub take_exact_short : (n : ℕ) (p : List A) → length p < n → take_exact n p ≡ none
  unfolding take_exact
  take_exact_short zero p h = absurd (omega arith)
  take_exact_short (suc n) [] h = refl
  take_exact_short (suc n) (x ∷ p) h = rw (take_exact_short n p (omega arith))

pub put16_lem : (v : ℕ) → v < 65536 → be16 (v / 256 % 256) (v % 256) ≡ v
put16_lem v h = omega arith

pub put32_lem :
    (v : ℕ)
    → v < 4294967296
    → be32 (v / 16777216 % 256) (v / 65536 % 256) (v / 256 % 256) (v % 256) ≡ v
put32_lem v h = omega arith

pub read16-put16 : (v : ℕ) (rest : List ℕ) → v < 65536 → read16 (put16 v ++ rest) 0 ≡ some v
unfolding read16
read16-put16 v rest h = ap some (put16_lem v h)

pub read32-put32 : (v : ℕ) (rest : List ℕ) → v < 4294967296 → read32 (put32 v ++ rest) 0 ≡ some v
unfolding read32
read32-put32 v rest h = ap some (put32_lem v h)

-- `size_t` subtraction, which wraps.
unfoldable pub sub64 : ℕ → ℕ → ℕ
sub64 a b = (a + 2 ^ 64 - b) % 2 ^ 64

suc_plus : (n i : ℕ) → suc n + i ≡ suc (n + i)
suc_plus n i = omega arith

-- A read at an index behind a prefix is a read of the rest.
module _ {ℓ} {A : Type ℓ} where
  pub get_elem?-skip :
      (pre xs : List A) (i : ℕ) → get_elem? (pre ++ xs) (length pre + i) ≡ get_elem? xs i
  get_elem?-skip [] xs i = ap (get_elem? xs) (omega arith)
  get_elem?-skip (x ∷ pre) xs i =
      ap (get_elem? (x ∷ (pre ++ xs))) (suc_plus (length pre) i) ∙ get_elem?-skip pre xs i

  pub get_elem?-start : (pre xs : List A) → get_elem? (pre ++ xs) (length pre) ≡ get_elem? xs 0
  get_elem?-start [] xs = refl
  get_elem?-start (x ∷ pre) xs = get_elem?-start pre xs

  pub drop-skip : (pre xs : List A) (i : ℕ) → drop (length pre + i) (pre ++ xs) ≡ drop i xs
  drop-skip [] xs i = ap (λ (n : ℕ). drop n xs) (omega arith)
  drop-skip (x ∷ pre) xs i =
      ap (λ (n : ℕ). drop n (x ∷ (pre ++ xs))) (suc_plus (length pre) i) ∙ drop-skip pre xs i

plus_plus : (n i j : ℕ) → n + i + j ≡ n + (i + j)
plus_plus n i j = omega arith

pub read16-skip : (pre xs : List ℕ) (i : ℕ) → read16 (pre ++ xs) (length pre + i) ≡ read16 xs i
unfolding read16
read16-skip pre xs i =
    rw (plus_plus (length pre) i 1, get_elem?-skip pre xs i, get_elem?-skip pre xs (i + 1))

pub read32-skip : (pre xs : List ℕ) (i : ℕ) → read32 (pre ++ xs) (length pre + i) ≡ read32 xs i
unfolding read32
read32-skip pre xs i = rw (
  plus_plus (length pre) i 1,
  plus_plus (length pre) i 2,
  plus_plus (length pre) i 3,
  get_elem?-skip pre xs i,
  get_elem?-skip pre xs (i + 1),
  get_elem?-skip pre xs (i + 2),
  get_elem?-skip pre xs (i + 3),
)

pub read32-start : (pre xs : List ℕ) → read32 (pre ++ xs) (length pre) ≡ read32 xs 0
read32-start pre xs = ap (read32 (pre ++ xs)) (omega arith) ∙ read32-skip pre xs 0
