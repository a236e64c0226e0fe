-- ===== src/H26x/SearchByte.antt =====
-- src/formats/h26x.cc: find_h26x_start_code() of H.264, which moves on by one octet.
use mathlib.Core.Path.{subst}
use uvg_rtp.Prelude.{
  ltb, ◌==◌, if◌then◌else◌, ltb→lt, Bool-cases, length, bit_or_disjoint, ℕ, zero, suc, ◌+◌, ◌*◌,
  ◌/◌, ◌%◌, ◌^◌, ◌≤◌, ◌<◌, bit_or, ◌≡◌, refl, sym, ap, ◌∙◌, ◌⊎◌, inl, inr, Bool, true, false, ◌&&◌,
  none, some, List, [], ◌∷◌, arith,
}
use uvg_rtp.H26x.ZeroBytes.{le_word, AllBytes, any_zero, haszero32, haszero32_lem}
use uvg_rtp.H26x.StartCode.{
  Found, find_in_dword, read_dword, next_previous, search_start_code, skip_nonzero, prefetch,
}
use uvg_rtp.H26x.Scan.{
  Zeros, next_zeros, scan, last_zeros, first_of, last_zeros-nonzero, elim-first_of,
  find_in_dword-scan, z0,
}
use uvg_rtp.H26x.Search.{
  scan-append, round, previous_of, prefetch-Kept, AllBytes-append, scan_four-append,
}

-- Three octets of the previous word and one of this make the next one.
next_previous-word :
    (p0 p1 p2 p3 a b c d : ℕ)
    → AllBytes (p0 ∷ p1 ∷ p2 ∷ p3 ∷ [])
    → AllBytes (a ∷ b ∷ c ∷ d ∷ [])
    → next_previous 1 (le_word (p0 ∷ p1 ∷ p2 ∷ p3 ∷ [])) (le_word (a ∷ b ∷ c ∷ d ∷ []))
      ≡ previous_of p1 p2 p3 a
unfolding next_previous
next_previous-word p0 p1 p2 p3 a b c d hp hc =
    let prev = le_word (p0 ∷ p1 ∷ p2 ∷ p3 ∷ []) in
    let cur = le_word (a ∷ b ∷ c ∷ d ∷ []) in
    let high : cur * 2 ^ 24 % 2 ^ 32 ≡ a * 2 ^ 24 = omega arith in
    let low : prev / 2 ^ 8 ≡ p1 + 256 * (p2 + 256 * p3) = omega arith in
    let word : bit_or (cur * 2 ^ 24 % 2 ^ 32) (prev / 2 ^ 8) ≡ le_word (p1 ∷ p2 ∷ p3 ∷ a ∷ []) =
      ap (λ (w : ℕ). bit_or w (prev / 2 ^ 8)) high
      ∙ bit_or_disjoint 24 a (prev / 2 ^ 8) (omega arith)
      ∙ omega arith in
    ap (λ (w : ℕ). let v : ℕ × Bool = (w, haszero32 w) in v) word
    ∙ ap (λ (z : Bool). let v : ℕ × Bool = (le_word (p1 ∷ p2 ∷ p3 ∷ a ∷ []), z) in v)
        (haszero32_lem p1 p2 p3 a (hp.1.0, (hp.1.1.0, (hp.1.1.1.0, (hc.0, tt)))))

next_zeros-last_zeros : (p1 p2 p3 a : ℕ) → next_zeros (last_zeros p1 p2 p3) a ≡ last_zeros p2 p3 a
next_zeros-last_zeros p1 p2 p3 a = ground arith

-- Nothing was found in what is left, or the prefix ends where the data ends.
abbrev pub OnlyAtEnd : ℕ → Found → Type 0
OnlyAtEnd end found = (found ≡ none) ⊎ ((n : ℕ) × (found ≡ some (end, n)))

-- The search agrees with the scan, but may miss a prefix at the very end.
abbrev pub Finds : ℕ → Found → Found → Type 0
Finds end found expected = (found ≡ expected) ⊎ ((found ≡ none) × OnlyAtEnd end expected)

three_octets :
    (pos a b c : ℕ)
    → scan z0 pos (a ∷ b ∷ c ∷ [])
      ≡ (if a == 0 && (b == 0 && c == 1) then some (pos + 3, 3) else none)
three_octets pos a b c = ground arith

short_end :
    (pos : ℕ) (rest : List ℕ) → length rest < 4 → OnlyAtEnd (pos + length rest) (scan z0 pos rest)
short_end pos [] h = inl refl
short_end pos (a ∷ []) h = inl (ground arith)
short_end pos (a ∷ b ∷ []) h = inl (ground arith)
short_end pos (a ∷ b ∷ c ∷ []) h = elim (Bool-cases (a == 0 && (b == 0 && c == 1))) [
  | inl e ↦ inr (3, three_octets pos a b c ∙ rw e refl)
  | inr e ↦ inl (three_octets pos a b c ∙ rw e refl)
]
short_end pos (a ∷ b ∷ c ∷ d ∷ rest) h = absurd (omega arith)

first_of-none : (x y : Found) → first_of x y ≡ none → (x ≡ none) × (y ≡ none)
first_of-none none y h = (refl, h)
first_of-none (some r) y h = cc

abbrev pub Ready : ℕ → List ℕ → Found → Type 0
Ready pos rest found = (4 ≤ length rest) ⊎ OnlyAtEnd (pos + length rest) found

abbrev pub Agrees : ℕ → Type 0
Agrees fuel =
    (p0 p1 p2 p3 : ℕ) (cur_zero : Bool) (pos : ℕ) (rest : List ℕ)
    → AllBytes (p0 ∷ p1 ∷ p2 ∷ p3 ∷ [])
    → AllBytes rest
    → length rest ≤ fuel
    → Ready pos rest (scan (last_zeros p1 p2 p3) pos rest)
    → Finds (pos + length rest)
        (search_start_code 1 fuel (previous_of p0 p1 p2 p3) cur_zero pos rest)
        (scan (last_zeros p1 p2 p3) pos rest)

too_short :
    (end : ℕ) (rest : List ℕ) (found expected : Found)
    → found ≡ none
    → length rest < 4
    → (4 ≤ length rest) ⊎ OnlyAtEnd end expected
    → Finds end found expected
too_short end rest found expected e h (inl long) = absurd (omega arith)
too_short end rest found expected e h (inr only) = inr (e, only)

-- Where four octets hold no prefix, the scan goes on behind the first of them.
scan-step :
    (z : Zeros) (pos a b c d : ℕ) (rest : List ℕ)
    → scan z pos (a ∷ b ∷ c ∷ d ∷ []) ≡ none
    → (scan z pos (a ∷ b ∷ c ∷ d ∷ rest) ≡ scan (next_zeros z a) (pos + 1) (b ∷ c ∷ d ∷ rest))
      × (scan (next_zeros z a) (pos + 1) (b ∷ c ∷ d ∷ []) ≡ none)
scan-step z pos a b c d rest h =
    let parts =
      first_of-none (scan z pos (a ∷ [])) (scan (next_zeros z a) (pos + 1) (b ∷ c ∷ d ∷ []))
        (sym (scan-append z pos (a ∷ []) (b ∷ c ∷ d ∷ [])) ∙ h) in
    (
      scan-append z pos (a ∷ []) (b ∷ c ∷ d ∷ rest)
          ∙ ap
              (λ (first : Found).
                first_of first (scan (next_zeros z a) (pos + 1) (b ∷ c ∷ d ∷ rest)))
              parts.0,
      parts.1,
    )

Ready-next :
    (pos b c d : ℕ) (rest : List ℕ) (z : Zeros)
    → scan z pos (b ∷ c ∷ d ∷ []) ≡ none
    → Ready pos (b ∷ c ∷ d ∷ rest) (scan z pos (b ∷ c ∷ d ∷ rest))
Ready-next pos b c d [] z h = inr (inl h)
Ready-next pos b c d (e ∷ rest) z h = inl (omega arith)

-- One round in which a word is read.
module _ (fuel p0 p1 p2 p3 at a b c d : ℕ) (rest : List ℕ) (ih : Agrees fuel)
    (hp : AllBytes (p0 ∷ p1 ∷ p2 ∷ p3 ∷ [])) (hr : AllBytes (a ∷ b ∷ c ∷ d ∷ rest))
    (short : length rest + 3 ≤ fuel) where
  abbrev zeros : Zeros
  zeros = last_zeros p1 p2 p3

  abbrev next_search : Found
  next_search =
      search_start_code 1 fuel (previous_of p1 p2 p3 a) (haszero32 (le_word (a ∷ b ∷ c ∷ d ∷ [])))
        (at + 1) (b ∷ c ∷ d ∷ rest)

  round_first :
      round 1 fuel (previous_of p0 p1 p2 p3) at (a ∷ b ∷ c ∷ d ∷ rest)
      ≡ first_of (scan zeros at (a ∷ b ∷ c ∷ d ∷ [])) next_search
  unfolding read_dword
  round_first =
      let (hc, later) = AllBytes-append (a ∷ b ∷ c ∷ d ∷ []) rest hr in
      elim-first_of
        (find_in_dword (any_zero (p0 ∷ p1 ∷ p2 ∷ p3 ∷ []))
          (haszero32 (le_word (a ∷ b ∷ c ∷ d ∷ []))) (le_word (p0 ∷ p1 ∷ p2 ∷ p3 ∷ []))
          (le_word (a ∷ b ∷ c ∷ d ∷ [])) at)
        (search_start_code 1 fuel
          (next_previous 1 (le_word (p0 ∷ p1 ∷ p2 ∷ p3 ∷ [])) (le_word (a ∷ b ∷ c ∷ d ∷ [])))
          (haszero32 (le_word (a ∷ b ∷ c ∷ d ∷ []))) (at + 1) (b ∷ c ∷ d ∷ rest))
      ∙ (λ i. first_of (find_in_dword-scan p0 p1 p2 p3 a b c d at hp hc i) (
          search_start_code 1 fuel (next_previous-word p0 p1 p2 p3 a b c d hp hc i)
            (haszero32 (le_word (a ∷ b ∷ c ∷ d ∷ []))) (at + 1) (b ∷ c ∷ d ∷ rest)))

  round-Finds :
      (o : Found)
      → scan zeros at (a ∷ b ∷ c ∷ d ∷ []) ≡ o
      → Finds
          (at + length (a ∷ b ∷ c ∷ d ∷ rest))
          (first_of o next_search)
          (scan zeros at (a ∷ b ∷ c ∷ d ∷ rest))
  round-Finds (some r) e = inl (
      sym (
        scan_four-append zeros at a b c d rest
        ∙ ap (λ (o : Found). first_of o (scan (last_zeros b c d) (at + 4) rest)) e))
  round-Finds none e =
      let (now, over) = scan-step zeros at a b c d rest e in
      let same = next_zeros-last_zeros p1 p2 p3 a in
      let moved : scan zeros at (a ∷ b ∷ c ∷ d ∷ rest)
          ≡ scan (last_zeros p2 p3 a) (at + 1) (b ∷ c ∷ d ∷ rest) =
        now ∙ ap (λ (z : Zeros). scan z (at + 1) (b ∷ c ∷ d ∷ rest)) same in
      let ended : scan (last_zeros p2 p3 a) (at + 1) (b ∷ c ∷ d ∷ []) ≡ none =
        ap (λ (z : Zeros). scan z (at + 1) (b ∷ c ∷ d ∷ [])) (sym same) ∙ over in
      let found =
        ih p1 p2 p3 a (haszero32 (le_word (a ∷ b ∷ c ∷ d ∷ []))) (at + 1) (b ∷ c ∷ d ∷ rest)
          (hp.1.0, (hp.1.1.0, (hp.1.1.1.0, (hr.0, tt)))) hr.1 (omega arith)
          (Ready-next (at + 1) b c d rest (last_zeros p2 p3 a) ended) in
      let place : at + 1 + length (b ∷ c ∷ d ∷ rest) ≡ at + length (a ∷ b ∷ c ∷ d ∷ rest) =
        omega arith in
      subst (λ (x : Found). Finds (at + length (a ∷ b ∷ c ∷ d ∷ rest)) next_search x) (sym moved)
        (subst
          (λ (n : ℕ). Finds n next_search (scan (last_zeros p2 p3 a) (at + 1) (b ∷ c ∷ d ∷ rest)))
          place found)

  round_agrees :
      Finds
        (at + length (a ∷ b ∷ c ∷ d ∷ rest))
        (round 1 fuel (previous_of p0 p1 p2 p3) at (a ∷ b ∷ c ∷ d ∷ rest))
        (scan zeros at (a ∷ b ∷ c ∷ d ∷ rest))
  round_agrees =
      subst
        (λ (x : Found).
          Finds (at + length (a ∷ b ∷ c ∷ d ∷ rest)) x (scan zeros at (a ∷ b ∷ c ∷ d ∷ rest)))
        (sym round_first) (round-Finds (scan zeros at (a ∷ b ∷ c ∷ d ∷ [])) refl)

round_any :
    (fuel p0 p1 p2 p3 at : ℕ) (from : List ℕ)
    → Agrees fuel
    → AllBytes (p0 ∷ p1 ∷ p2 ∷ p3 ∷ [])
    → AllBytes from
    → length from ≤ suc fuel
    → Ready at from (scan (last_zeros p1 p2 p3) at from)
    → Finds
        (at + length from)
        (round 1 fuel (previous_of p0 p1 p2 p3) at from)
        (scan (last_zeros p1 p2 p3) at from)
unfolding read_dword
round_any fuel p0 p1 p2 p3 at [] ih hp hr short ready =
    too_short (at + 0) [] none _ refl (omega arith) ready
round_any fuel p0 p1 p2 p3 at (a ∷ []) ih hp hr short ready =
    too_short (at + 1) (a ∷ []) none _ refl (omega arith) ready
round_any fuel p0 p1 p2 p3 at (a ∷ b ∷ []) ih hp hr short ready =
    too_short (at + 2) (a ∷ b ∷ []) none _ refl (omega arith) ready
round_any fuel p0 p1 p2 p3 at (a ∷ b ∷ c ∷ []) ih hp hr short ready =
    too_short (at + 3) (a ∷ b ∷ c ∷ []) none _ refl (omega arith) ready
round_any fuel p0 p1 p2 p3 at (a ∷ b ∷ c ∷ d ∷ rest) ih hp hr short ready =
    round_agrees fuel p0 p1 p2 p3 at a b c d rest ih hp hr (omega arith)

pub Ready-again : (z : Zeros) (pos : ℕ) (rest : List ℕ) → z ≡ z0 → Ready pos rest (scan z pos rest)
Ready-again z pos rest e = elim (Bool-cases (ltb (length rest) 4)) [
  | inl few ↦ inr (
      subst (λ (y : Zeros). OnlyAtEnd (pos + length rest) (scan y pos rest)) (sym e)
        (short_end pos rest (ltb→lt _ _ few)))
  | inr many ↦ inl (ground arith)
]

-- Skipped octets leave no zeros behind, so a short rest is ready.
prefetch-Ready :
    (p1 p2 p3 : ℕ) (prev_zero cur_zero : Bool) (pos : ℕ) (rest : List ℕ)
    → (prev_zero ≡ false → last_zeros p1 p2 p3 ≡ z0)
    → Ready pos rest (scan (last_zeros p1 p2 p3) pos rest)
    → Ready (prefetch prev_zero cur_zero pos rest).0 (prefetch prev_zero cur_zero pos rest).1 (
        scan
          (last_zeros p1 p2 p3)
          (prefetch prev_zero cur_zero pos rest).0
          (prefetch prev_zero cur_zero pos rest).1)
unfolding prefetch
prefetch-Ready p1 p2 p3 true cur_zero pos rest nz ready = ready
prefetch-Ready p1 p2 p3 false true pos rest nz ready = ready
prefetch-Ready p1 p2 p3 false false pos rest nz ready =
    Ready-again (last_zeros p1 p2 p3) (skip_nonzero pos rest).0 (skip_nonzero pos rest).1 (nz refl)

pub search-Agrees : (fuel : ℕ) → Agrees fuel
unfolding search_start_code
search-Agrees zero p0 p1 p2 p3 cur_zero pos [] hp hr short ready = inl refl
search-Agrees zero p0 p1 p2 p3 cur_zero pos (a ∷ rest) hp hr short ready = absurd (omega arith)
search-Agrees (suc fuel) p0 p1 p2 p3 cur_zero pos rest hp hr short ready =
    let prev_zero = any_zero (p0 ∷ p1 ∷ p2 ∷ p3 ∷ []) in
    let nonzero = last_zeros-nonzero p0 p1 p2 p3 in
    let kept =
      prefetch-Kept (λ xs. xs) (λ a b c d e f g h r. refl) (last_zeros p1 p2 p3) prev_zero cur_zero
        pos rest nonzero hr in
    let fetched = prefetch prev_zero cur_zero pos rest in
    let found =
      round_any fuel p0 p1 p2 p3 fetched.0 fetched.1 (search-Agrees fuel) hp kept.1 (omega arith)
        (prefetch-Ready p1 p2 p3 prev_zero cur_zero pos rest nonzero ready) in
    subst
      (λ (x : Found).
        Finds (pos + length rest) (round 1 fuel (previous_of p0 p1 p2 p3) fetched.0 fetched.1) x)
      kept.0
      (subst
        (λ (n : ℕ).
          Finds n (round 1 fuel (previous_of p0 p1 p2 p3) fetched.0 fetched.1)
            (scan (last_zeros p1 p2 p3) fetched.0 fetched.1))
        kept.3 found)
