-- ===== src/H26x/Scan.antt =====
-- src/formats/h26x.cc: what the tests of find_h26x_start_code() on a word say of its octets.
use uvg_rtp.Prelude.{
  ◌==◌, if◌then◌else◌, IsByte, ℕ, ◌+◌, ◌*◌, ◌/◌, ◌%◌, ◌≡◌, refl, sym, ap, ◌∙◌, Bool, true, false,
  ◌&&◌, ◌||◌, none, some, List, [], ◌∷◌, arith,
}
use uvg_rtp.H26x.ZeroBytes.{le_word, AllBytes, any_zero, haszero32, haszero32_lem}
use uvg_rtp.H26x.StartCode.{
  determine_start_prefix_precense, Found, find_after_zeros, find_split, find_whole, find_in_dword,
}

-- A scan octet by octet that counts the zeros, up to three.
pub data Zeros : Type 0 where
  z0 z1 z2 z3 : Zeros

abbrev pub one_more : Zeros → Zeros
one_more z0 = z1
one_more z1 = z2
one_more z2 = z3
one_more z3 = z3

abbrev pub next_zeros : Zeros → ℕ → Zeros
next_zeros z b = if b == 0 then one_more z else z0

-- What an octet 1 after so many zeros means.
abbrev pub at_one : Zeros → ℕ → Found → Found
at_one z0 pos later = later
at_one z1 pos later = later
at_one z2 pos later = some (pos, 3)
at_one z3 pos later = some (pos, 4)

abbrev pub scan : Zeros → ℕ → List ℕ → Found
scan z pos [] = none
scan z pos (b ∷ rest) =
    let later = scan (next_zeros z b) (pos + 1) rest in
    if b == 1 then at_one z (pos + 1) later else later

-- The zeros at the end of a word, from its last three octets.
abbrev pub last_zeros : ℕ → ℕ → ℕ → Zeros
last_zeros b c d = if d == 0 then (if c == 0 then (if b == 0 then z3 else z2) else z1) else z0

-- The two searches in a word, in turn.
abbrev tried : Bool → Bool → Found → Found → Found
tried prev_zero cur_zero after whole =
    if prev_zero || cur_zero
    then elim (if prev_zero then after else none) [ some r ↦ some r | none ↦ whole ]
    else none

-- The tests on words, on octets.
two_zero : (c d : ℕ) → (c + 256 * d == 0) ≡ (c == 0 && d == 0)
two_zero c d = ground arith

zero_one : (c d : ℕ) → IsByte c → (c + 256 * d == 256) ≡ (c == 0 && d == 1)
zero_one c d h = ground arith

three_zero : (b c d : ℕ) → (b + 256 * (c + 256 * d) == 0) ≡ (b == 0 && (c == 0 && d == 0))
three_zero b c d = ground arith

-- What the zeros at the end of the previous word decide.
abbrev some_zero : Zeros → Bool
some_zero z0 = false
some_zero z1 = true
some_zero z2 = true
some_zero z3 = true

abbrev two_zeros : Zeros → Bool
two_zeros z0 = false
two_zeros z1 = false
two_zeros z2 = true
two_zeros z3 = true

abbrev after_found : Zeros → ℕ → ℕ → Found
after_found z a pos = if a == 1 then at_one z pos none else none

abbrev split_found : Bool → Bool → ℕ → ℕ → ℕ → ℕ → ℕ → Found
split_found one two a b c pos2 pos3 =
    if two && (a == 0 && b == 1)
    then some (pos2, 4)
    else (if one
        then (if (a == 0 && b == 0) && c == 1
            then some (pos3, 4)
            else (if a == 0 && b == 1 then some (pos2, 3) else none))
        else none)

abbrev whole_found : Bool → Bool → ℕ → ℕ → ℕ → ℕ → ℕ → ℕ → ℕ → Found
whole_found one two a b c d pos2 pos3 pos4 =
    if a == 0 && b == 0
    then (if c == 0 && d == 1
        then some (pos4, 4)
        else (if c == 1
            then some (pos3, (if one then 4 else 3))
            else split_found one two a b c pos2 pos3))
    else (if b == 0 && (c == 0 && d == 1)
        then some (pos4, 3)
        else split_found one two a b c pos2 pos3)

-- The scan of four octets, with its positions.
abbrev scan_four : Zeros → ℕ → ℕ → ℕ → ℕ → ℕ → ℕ → ℕ → ℕ → Found
scan_four z a b c d pos1 pos2 pos3 pos4 =
    let y = next_zeros z a in
    let x = next_zeros y b in
    let w = next_zeros x c in
    let fourth = if d == 1 then at_one w pos4 none else none in
    let third = if c == 1 then at_one x pos3 fourth else fourth in
    let second = if b == 1 then at_one y pos2 third else third in
    if a == 1 then at_one z pos1 second else second

abbrev pub first_of : Found → Found → Found
first_of (some r) later = some r
first_of none later = later

found_by_scan :
    (z : Zeros) (a b c d pos1 pos2 pos3 pos4 : ℕ)
    → first_of
        (after_found z a pos1)
        (whole_found (some_zero z) (two_zeros z) a b c d pos2 pos3 pos4)
      ≡ scan_four z a b c d pos1 pos2 pos3 pos4
found_by_scan z0 a b c d pos1 pos2 pos3 pos4 = ground arith
found_by_scan z1 a b c d pos1 pos2 pos3 pos4 = ground arith
found_by_scan z2 a b c d pos1 pos2 pos3 pos4 = ground arith
found_by_scan z3 a b c d pos1 pos2 pos3 pos4 = ground arith

scan_four-nonzero :
    (a b c d pos1 pos2 pos3 pos4 : ℕ)
    → any_zero (a ∷ b ∷ c ∷ d ∷ []) ≡ false
    → scan_four z0 a b c d pos1 pos2 pos3 pos4 ≡ none
scan_four-nonzero a b c d pos1 pos2 pos3 pos4 h = ground arith

some_zero-last_zeros : (b c d : ℕ) → (d == 0) ≡ some_zero (last_zeros b c d)
some_zero-last_zeros b c d = ground arith

two_zeros-last_zeros : (b c d : ℕ) → (c == 0 && d == 0) ≡ two_zeros (last_zeros b c d)
two_zeros-last_zeros b c d = ground arith

after_found-last_zeros :
    (p1 p2 p3 a pos : ℕ)
    → (if a == 1 && (p2 == 0 && p3 == 0)
        then some (pos, (if p1 == 0 && (p2 == 0 && p3 == 0) then 4 else 3))
        else none)
      ≡ after_found (last_zeros p1 p2 p3) a pos
after_found-last_zeros p1 p2 p3 a pos = ground arith

pub last_zeros-nonzero :
    (p0 p1 p2 p3 : ℕ) → any_zero (p0 ∷ p1 ∷ p2 ∷ p3 ∷ []) ≡ false → last_zeros p1 p2 p3 ≡ z0
last_zeros-nonzero p0 p1 p2 p3 h = ground arith

pub elim-first_of :
    (after later : Found) → elim after [ some r ↦ some r | none ↦ later ] ≡ first_of after later
elim-first_of none later = refl
elim-first_of (some r) later = refl

either_way : (b : Bool) → (if b then none else none) ≡ (let f : Found = none in f)
either_way true = refl
either_way false = refl

-- A previous word without zeros has none at its end, and a word without zeros after it ends no prefix.
tried-scan_four :
    (z : Zeros) (prev_zero cur_zero : Bool) (a b c d pos pos2 pos3 pos4 : ℕ) (whole : Found)
    → (prev_zero ≡ false → z ≡ z0)
    → any_zero (a ∷ b ∷ c ∷ d ∷ []) ≡ cur_zero
    → first_of (after_found z a pos) whole ≡ scan_four z a b c d pos pos2 pos3 pos4
    → tried prev_zero cur_zero (after_found z a pos) whole ≡ scan_four z a b c d pos pos2 pos3 pos4
tried-scan_four z true cur_zero a b c d pos pos2 pos3 pos4 whole nz e h =
    elim-first_of (after_found z a pos) whole ∙ h
tried-scan_four z false true a b c d pos pos2 pos3 pos4 whole nz e h =
    let none_after : after_found z a pos ≡ none = rw (nz refl) (either_way (a == 1)) in
    ap (λ (after : Found). first_of after whole) (sym none_after) ∙ h
tried-scan_four z false false a b c d pos pos2 pos3 pos4 whole nz e h =
    rw (nz refl) (sym (scan_four-nonzero a b c d pos pos2 pos3 pos4 e))

module _ (p0 p1 p2 p3 a b c d pos : ℕ) (hp : AllBytes (p0 ∷ p1 ∷ p2 ∷ p3 ∷ []))
    (hc : AllBytes (a ∷ b ∷ c ∷ d ∷ [])) where
  abbrev prev_word : ℕ
  prev_word = le_word (p0 ∷ p1 ∷ p2 ∷ p3 ∷ [])

  abbrev cur_word : ℕ
  cur_word = le_word (a ∷ b ∷ c ∷ d ∷ [])

  cur_first : cur_word % 256 ≡ a
  cur_first = omega arith

  cur_low : cur_word % 65536 ≡ a + 256 * b
  cur_low = omega arith

  cur_high : cur_word / 65536 % 65536 ≡ c + 256 * d
  cur_high = omega arith

  prev_high : prev_word / 65536 % 65536 ≡ p2 + 256 * p3
  prev_high = omega arith

  prev_three : prev_word / 256 % 16777216 ≡ p1 + 256 * (p2 + 256 * p3)
  prev_three = omega arith

  prev_last : prev_word / 16777216 % 256 ≡ p3
  prev_last = omega arith

  low_second : (a + 256 * b) / 256 % 256 ≡ b
  low_second = omega arith

  high_first : (c + 256 * d) % 256 ≡ c
  high_first = omega arith

  prev_high_second : (p2 + 256 * p3) / 256 % 256 ≡ p3
  prev_high_second = omega arith

  determine_octets : determine_start_prefix_precense cur_word ≡ (
      if a == 0 && b == 0
      then (if c == 0 && d == 1 then (4, false) else (if c == 1 then (5, false) else (0, false)))
      else (if b == 0 && (c == 0 && d == 1) then (4, true) else (0, false)))
  unfolding determine_start_prefix_precense
  determine_octets =
      rw (cur_low, cur_high, low_second, high_first, two_zero a b, zero_one c d (hc.1.1.0)) refl

  after_zeros_octets : find_after_zeros prev_word cur_word pos ≡ (
      if a == 1 && (p2 == 0 && p3 == 0)
      then some (pos + 1, (if p1 == 0 && (p2 == 0 && p3 == 0) then 4 else 3))
      else none)
  unfolding find_after_zeros
  after_zeros_octets =
      rw (cur_first, prev_high, prev_three, two_zero p2 p3, three_zero p1 p2 p3) refl

  split_octets : find_split prev_word cur_word pos ≡ (
      if (p2 == 0 && p3 == 0) && (a == 0 && b == 1)
      then some (pos + 2, 4)
      else (if p3 == 0
          then (if (a == 0 && b == 0) && c == 1
              then some (pos + 3, 4)
              else (if a == 0 && b == 1 then some (pos + 2, 3) else none))
          else none))
  unfolding find_split
  split_octets =
      rw
        (
          cur_low,
          cur_high,
          prev_high,
          high_first,
          prev_high_second,
          two_zero p2 p3,
          two_zero a b,
          zero_one a b hc.0,
        )
        refl

  abbrev zeros : Zeros
  zeros = last_zeros p1 p2 p3

  whole_octets :
      find_whole prev_word cur_word pos (determine_start_prefix_precense cur_word)
      ≡ whole_found (p3 == 0) (p2 == 0 && p3 == 0) a b c d (pos + 2) (pos + 3) (pos + 4)
  unfolding find_whole
  whole_octets =
      ap (find_whole prev_word cur_word pos) determine_octets
      ∙ ground (arith, split_octets, prev_last)

  whole_zeros :
      whole_found (p3 == 0) (p2 == 0 && p3 == 0) a b c d (pos + 2) (pos + 3) (pos + 4)
      ≡ whole_found (some_zero zeros) (two_zeros zeros) a b c d (pos + 2) (pos + 3) (pos + 4)
  whole_zeros = λ i.
      whole_found (some_zero-last_zeros p1 p2 p3 i) (two_zeros-last_zeros p1 p2 p3 i) a b c d
        (pos + 2) (pos + 3) (pos + 4)

  in_dword_octets :
      (prev_zero cur_zero : Bool)
      → find_in_dword prev_zero cur_zero prev_word cur_word pos
        ≡ tried prev_zero cur_zero
            (after_found zeros a (pos + 1))
            (whole_found (some_zero zeros) (two_zeros zeros) a b c d (pos + 2) (pos + 3) (pos + 4))
  unfolding find_in_dword
  in_dword_octets prev_zero cur_zero = λ i.
      tried prev_zero cur_zero
        ((after_zeros_octets ∙ after_found-last_zeros p1 p2 p3 a (pos + 1)) i)
        ((whole_octets ∙ whole_zeros) i)

  scan_four-scan :
      scan_four zeros a b c d (pos + 1) (pos + 2) (pos + 3) (pos + 4)
      ≡ scan zeros pos (a ∷ b ∷ c ∷ d ∷ [])
  scan_four-scan = λ i. scan_four zeros a b c d (pos + 1) (two i) (three i) (four i)
    where
      two : pos + 2 ≡ pos + 1 + 1
      two = omega arith

      three : pos + 3 ≡ pos + 1 + 1 + 1
      three = omega arith

      four : pos + 4 ≡ pos + 1 + 1 + 1 + 1
      four = omega arith

  pub find_in_dword-scan :
      find_in_dword (any_zero (p0 ∷ p1 ∷ p2 ∷ p3 ∷ [])) (haszero32 cur_word) prev_word cur_word pos
      ≡ scan (last_zeros p1 p2 p3) pos (a ∷ b ∷ c ∷ d ∷ [])
  find_in_dword-scan =
      ap (λ (z : Bool). find_in_dword (any_zero (p0 ∷ p1 ∷ p2 ∷ p3 ∷ [])) z prev_word cur_word pos)
        (haszero32_lem a b c d hc)
      ∙ in_dword_octets (any_zero (p0 ∷ p1 ∷ p2 ∷ p3 ∷ [])) (any_zero (a ∷ b ∷ c ∷ d ∷ []))
      ∙ tried-scan_four zeros _ _ a b c d (pos + 1) (pos + 2) (pos + 3) (pos + 4) _
          (last_zeros-nonzero p0 p1 p2 p3) refl
          (found_by_scan zeros a b c d (pos + 1) (pos + 2) (pos + 3) (pos + 4))
      ∙ scan_four-scan
