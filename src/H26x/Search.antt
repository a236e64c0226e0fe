-- ===== src/H26x/Search.antt =====
-- src/formats/h26x.cc: find_h26x_start_code() of H.265 and H.266 finds what a scan octet by octet finds.
use uvg_rtp.Prelude.{
  ◌==◌, if◌then◌else◌, Bool-cases, length, drop, ℕ, zero, suc, ◌+◌, ◌≤◌, ◌≡◌, refl, sym, ap, ◌∙◌,
  inl, inr, Bool, true, false, none, some, List, [], ◌∷◌, ◌++◌, arith,
}
use uvg_rtp.H26x.ZeroBytes.{le_word, AllBytes, any_zero, haszero32, haszero32_lem, haszero64_lem}
use uvg_rtp.H26x.StartCode.{
  Found, find_in_dword, skip_nonzero, prefetch, read_dword, next_previous, search_start_code,
}
use uvg_rtp.H26x.Scan.{
  elim-first_of, last_zeros-nonzero, Zeros, next_zeros, at_one, scan, last_zeros, first_of,
  find_in_dword-scan, z0, z1, z2, z3,
}

first_of-first_of : (x y w : Found) → first_of (first_of x y) w ≡ first_of x (first_of y w)
first_of-first_of none y w = refl
first_of-first_of (some r) y w = refl

abbrev zeros_after : Zeros → List ℕ → Zeros
zeros_after z [] = z
zeros_after z (b ∷ bs) = zeros_after (next_zeros z b) bs

pos_suc : (pos n : ℕ) → pos + 1 + n ≡ pos + suc n
pos_suc pos n = omega arith

at_one-first_of :
    (z : Zeros) (test : Bool) (pos : ℕ) (x y : Found)
    → (if test then at_one z pos (first_of x y) else first_of x y)
      ≡ first_of (if test then at_one z pos x else x) y
at_one-first_of z false pos x y = refl
at_one-first_of z0 true pos x y = refl
at_one-first_of z1 true pos x y = refl
at_one-first_of z2 true pos x y = refl
at_one-first_of z3 true pos x y = refl

-- A scan goes on behind what it has read.
pub scan-append :
    (z : Zeros) (pos : ℕ) (bs rest : List ℕ)
    → scan z pos (bs ++ rest)
      ≡ first_of (scan z pos bs) (scan (zeros_after z bs) (pos + length bs) rest)
scan-append z pos [] rest = ap (λ (p : ℕ). scan z p rest) (omega arith)
scan-append z pos (b ∷ bs) rest =
    ap (λ (later : Found). if b == 1 then at_one z (pos + 1) later else later)
      (scan-append (next_zeros z b) (pos + 1) bs rest
        ∙ ap
            (λ (p : ℕ).
              first_of (scan (next_zeros z b) (pos + 1) bs)
                (scan (zeros_after (next_zeros z b) bs) p rest))
            (pos_suc pos (length bs)))
    ∙ at_one-first_of z (b == 1) (pos + 1) _ _

zeros_after_four : (z : Zeros) (a b c d : ℕ) → zeros_after z (a ∷ b ∷ c ∷ d ∷ []) ≡ last_zeros b c d
zeros_after_four z a b c d = ground arith

pub scan_four-append :
    (z : Zeros) (pos a b c d : ℕ) (rest : List ℕ)
    → scan z pos (a ∷ b ∷ c ∷ d ∷ rest)
      ≡ first_of (scan z pos (a ∷ b ∷ c ∷ d ∷ [])) (scan (last_zeros b c d) (pos + 4) rest)
scan_four-append z pos a b c d rest =
    scan-append z pos (a ∷ b ∷ c ∷ d ∷ []) rest
    ∙ ap (λ (y : Zeros). first_of (scan z pos (a ∷ b ∷ c ∷ d ∷ [])) (scan y (pos + 4) rest))
        (zeros_after_four z a b c d)

starts_again : (b : ℕ) → (b == 0) ≡ false → next_zeros z0 b ≡ z0
starts_again b h = rw h refl

either_result : (test : Bool) (x : Found) → (if test then x else x) ≡ x
either_result true x = refl
either_result false x = refl

-- Octets that are not zero are passed over.
pub scan_nonzero :
    (pos : ℕ) (bs rest : List ℕ)
    → any_zero bs ≡ false
    → scan z0 pos (bs ++ rest) ≡ scan z0 (pos + length bs) rest
scan_nonzero pos [] rest h = ap (λ (p : ℕ). scan z0 p rest) (omega arith)
scan_nonzero pos (b ∷ bs) rest h =
    let others : any_zero bs ≡ false = ground arith in
    let later = scan_nonzero (pos + 1) bs rest others in
    let place = pos_suc pos (length bs) in
    ap
      (λ (z : Zeros).
        let l = scan z (pos + 1) (bs ++ rest) in if b == 1 then at_one z0 (pos + 1) l else l)
      (starts_again b (ground arith))
    ∙ either_result (b == 1) (scan z0 (pos + 1) (bs ++ rest))
    ∙ later
    ∙ ap (λ (p : ℕ). scan z0 p rest) place

-- The words of four octets that are read before the end.
unfoldable pub whole_dwords : List ℕ → List ℕ
whole_dwords (a ∷ b ∷ c ∷ d ∷ rest) = a ∷ b ∷ c ∷ d ∷ whole_dwords rest
whole_dwords rest = []

-- What a prefetch keeps: the result of a scan of the octets that `seen` says are read.
abbrev pub Kept : (List ℕ → List ℕ) → Zeros → ℕ → List ℕ → ℕ × List ℕ → Type 0
Kept seen z pos rest (at, from) =
    (scan z at (seen from) ≡ scan z pos (seen rest))
    × AllBytes from
    × (length from ≤ length rest)
    × (at + length from ≡ pos + length rest)

abbrev pub TakesEight : (List ℕ → List ℕ) → Type 0
TakesEight seen =
    (a b c d e f g h : ℕ) (rest : List ℕ)
    → seen (a ∷ b ∷ c ∷ d ∷ e ∷ f ∷ g ∷ h ∷ rest) ≡ a ∷ b ∷ c ∷ d ∷ e ∷ f ∷ g ∷ h ∷ seen rest

pub AllBytes-append : (bs rest : List ℕ) → AllBytes (bs ++ rest) → AllBytes bs × AllBytes rest
AllBytes-append [] rest k = (tt, k)
AllBytes-append (b ∷ bs) rest k =
    let (now, after) = AllBytes-append bs rest k.1 in ((k.0, now), after)

skip_nonzero-Kept :
    (seen : List ℕ → List ℕ) (eight : TakesEight seen) (pos : ℕ) (rest : List ℕ)
    → AllBytes rest
    → Kept seen z0 pos rest (skip_nonzero pos rest)
unfolding skip_nonzero
skip_nonzero-Kept seen eight pos [] k = (refl, k, omega arith, refl)
skip_nonzero-Kept seen eight pos (a ∷ []) k = (refl, k, omega arith, refl)
skip_nonzero-Kept seen eight pos (a ∷ b ∷ []) k = (refl, k, omega arith, refl)
skip_nonzero-Kept seen eight pos (a ∷ b ∷ c ∷ []) k = (refl, k, omega arith, refl)
skip_nonzero-Kept seen eight pos (a ∷ b ∷ c ∷ d ∷ []) k = (refl, k, omega arith, refl)
skip_nonzero-Kept seen eight pos (a ∷ b ∷ c ∷ d ∷ e ∷ []) k = (refl, k, omega arith, refl)
skip_nonzero-Kept seen eight pos (a ∷ b ∷ c ∷ d ∷ e ∷ f ∷ []) k = (refl, k, omega arith, refl)
skip_nonzero-Kept seen eight pos (a ∷ b ∷ c ∷ d ∷ e ∷ f ∷ g ∷ []) k = (refl, k, omega arith, refl)
skip_nonzero-Kept seen eight pos (a ∷ b ∷ c ∷ d ∷ e ∷ f ∷ g ∷ h ∷ rest) k =
    let (now, after) = AllBytes-append (a ∷ b ∷ c ∷ d ∷ e ∷ f ∷ g ∷ h ∷ []) rest k in
    let word = haszero64_lem a b c d e f g h now in
    elim (Bool-cases (any_zero (a ∷ b ∷ c ∷ d ∷ e ∷ f ∷ g ∷ h ∷ []))) [
      | inl some_zero ↦ rw (word ∙ some_zero) (refl, k, omega arith, refl)
      | inr no_zero ↦ rw (word ∙ no_zero) (
          let ih = skip_nonzero-Kept seen eight (pos + 8) rest after in
          (
            ih.0
                ∙ sym (scan_nonzero pos (a ∷ b ∷ c ∷ d ∷ e ∷ f ∷ g ∷ h ∷ []) (seen rest) no_zero)
                ∙ ap (scan z0 pos) (sym (eight a b c d e f g h rest)),
            ih.1,
            omega arith,
            omega arith,
          ))
    ]

pub prefetch-Kept :
    (seen : List ℕ → List ℕ) (eight : TakesEight seen) (z : Zeros) (prev_zero cur_zero : Bool)
    (pos : ℕ) (rest : List ℕ)
    → (prev_zero ≡ false → z ≡ z0)
    → AllBytes rest
    → Kept seen z pos rest (prefetch prev_zero cur_zero pos rest)
unfolding prefetch
prefetch-Kept seen eight z true cur_zero pos rest nz k = (refl, k, omega arith, refl)
prefetch-Kept seen eight z false true pos rest nz k = (refl, k, omega arith, refl)
prefetch-Kept seen eight z false false pos rest nz k =
    rw (nz refl) (skip_nonzero-Kept seen eight pos rest k)

-- One round, behind the prefetch.
abbrev pub round : ℕ → ℕ → ℕ × Bool → ℕ → List ℕ → Found
round range fuel previous at from = elim (read_dword from) [
  | none ↦ none
  | some cur ↦ elim (find_in_dword previous.1 (haszero32 cur) previous.0 cur at) [
    | some r ↦ some r
    | none ↦
        search_start_code range fuel (next_previous range previous.0 cur) (haszero32 cur)
          (at + range) (drop range from)
  ]
]

abbrev pub previous_of : ℕ → ℕ → ℕ → ℕ → ℕ × Bool
previous_of p0 p1 p2 p3 = (le_word (p0 ∷ p1 ∷ p2 ∷ p3 ∷ []), any_zero (p0 ∷ p1 ∷ p2 ∷ p3 ∷ []))

-- That the search from here on agrees with the scan.
abbrev pub Agrees : ℕ → Type 0
Agrees fuel =
    (p0 p1 p2 p3 : ℕ) (cur_zero : Bool) (pos : ℕ) (rest : List ℕ)
    → AllBytes (p0 ∷ p1 ∷ p2 ∷ p3 ∷ [])
    → AllBytes rest
    → length rest ≤ fuel
    → search_start_code 4 fuel (previous_of p0 p1 p2 p3) cur_zero pos rest
      ≡ scan (last_zeros p1 p2 p3) pos (whole_dwords rest)

round_found_words :
    (fuel p0 p1 p2 p3 at a b c d : ℕ) (rest : List ℕ)
    → Agrees fuel
    → AllBytes (p0 ∷ p1 ∷ p2 ∷ p3 ∷ [])
    → AllBytes (a ∷ b ∷ c ∷ d ∷ rest)
    → length rest ≤ fuel
    → round 4 fuel (previous_of p0 p1 p2 p3) at (a ∷ b ∷ c ∷ d ∷ rest)
      ≡ scan (last_zeros p1 p2 p3) at (a ∷ b ∷ c ∷ d ∷ whole_dwords rest)
unfolding read_dword next_previous whole_dwords
round_found_words fuel p0 p1 p2 p3 at a b c d rest ih hp hr short =
    let (hc, later) = AllBytes-append (a ∷ b ∷ c ∷ d ∷ []) rest hr in
    let cur = le_word (a ∷ b ∷ c ∷ d ∷ []) in
    let next : search_start_code 4 fuel (cur, haszero32 cur) (haszero32 cur) (at + 4) rest
        ≡ scan (last_zeros b c d) (at + 4) (whole_dwords rest) =
      ap (λ (w : Bool). search_start_code 4 fuel (cur, w) w (at + 4) rest)
        (haszero32_lem a b c d hc)
      ∙ ih a b c d _ (at + 4) rest hc later short in
    elim-first_of
      (find_in_dword (any_zero (p0 ∷ p1 ∷ p2 ∷ p3 ∷ [])) (haszero32 cur)
        (le_word (p0 ∷ p1 ∷ p2 ∷ p3 ∷ [])) cur at)
      _
    ∙ (λ i. first_of (find_in_dword-scan p0 p1 p2 p3 a b c d at hp hc i) (next i))
    ∙ sym (scan_four-append (last_zeros p1 p2 p3) at a b c d (whole_dwords rest))

round_found :
    (fuel p0 p1 p2 p3 at : ℕ) (from : List ℕ)
    → Agrees fuel
    → AllBytes (p0 ∷ p1 ∷ p2 ∷ p3 ∷ [])
    → AllBytes from
    → length from ≤ suc fuel
    → round 4 fuel (previous_of p0 p1 p2 p3) at from
      ≡ scan (last_zeros p1 p2 p3) at (whole_dwords from)
unfolding read_dword whole_dwords
round_found fuel p0 p1 p2 p3 at [] ih hp hr short = refl
round_found fuel p0 p1 p2 p3 at (a ∷ []) ih hp hr short = refl
round_found fuel p0 p1 p2 p3 at (a ∷ b ∷ []) ih hp hr short = refl
round_found fuel p0 p1 p2 p3 at (a ∷ b ∷ c ∷ []) ih hp hr short = refl
round_found fuel p0 p1 p2 p3 at (a ∷ b ∷ c ∷ d ∷ rest) ih hp hr short =
    round_found_words fuel p0 p1 p2 p3 at a b c d rest ih hp hr (omega arith)

pub search-Agrees : (fuel : ℕ) → Agrees fuel
unfolding search_start_code whole_dwords
search-Agrees zero p0 p1 p2 p3 cur_zero pos [] hp hr short = refl
search-Agrees zero p0 p1 p2 p3 cur_zero pos (a ∷ rest) hp hr short = absurd (omega arith)
search-Agrees (suc fuel) p0 p1 p2 p3 cur_zero pos rest hp hr short =
    let prev_zero = any_zero (p0 ∷ p1 ∷ p2 ∷ p3 ∷ []) in
    let kept =
      prefetch-Kept whole_dwords (λ a b c d e f g h r. refl) (last_zeros p1 p2 p3) prev_zero
        cur_zero pos rest (last_zeros-nonzero p0 p1 p2 p3) hr in
    let fetched = prefetch prev_zero cur_zero pos rest in
    round_found fuel p0 p1 p2 p3 fetched.0 fetched.1 (search-Agrees fuel) hp kept.1 (omega arith)
    ∙ kept.0
