-- ===== src/H26x/FindsFirst.antt =====
-- src/formats/h26x.cc: find_h26x_start_code() against the reference search.
use mathlib.Core.Path.{subst}
use uvg_rtp.Prelude.{
  ltb, ltb→lt, Bool-cases, length, drop, length-drop, ℕ, zero, suc, ◌+◌, ◌≤◌, ◌<◌, ◌≡◌, refl, ◌∙◌,
  inl, inr, true, false, ◌||◌, List, [], ◌∷◌, arith,
}
use uvg_rtp.H26x.Headers.{Codec, h264}
use uvg_rtp.H26x.ZeroBytes.{AllBytes}
use uvg_rtp.H26x.StartCode.{
  get_start_code_range, search_start_code, find_h26x_start_code, first_start_code,
}
use uvg_rtp.H26x.Scan.{z0}
use uvg_rtp.H26x.Search.{whole_dwords}
use uvg_rtp.H26x.Search
use uvg_rtp.H26x.SearchByte
use uvg_rtp.H26x.SearchByte.{OnlyAtEnd, Finds}
use uvg_rtp.H26x.Reference.{scan-first_start_code}

AllBytes-drop : (n : ℕ) (bs : List ℕ) → AllBytes bs → AllBytes (drop n bs)
AllBytes-drop zero bs h = h
AllBytes-drop (suc n) [] h = h
AllBytes-drop (suc n) (b ∷ bs) h = AllBytes-drop n bs h.1

drop_behind : (n : ℕ) (bs : List ℕ) → length bs < n → drop n bs ≡ []
drop_behind zero bs h = absurd (omega arith)
drop_behind (suc n) [] h = refl
drop_behind (suc n) (b ∷ bs) h = drop_behind n bs (omega arith)

nothing_left :
    (offset : ℕ) (bs : List ℕ)
    → (ltb (length bs) offset || ltb (length bs) 1) ≡ true
    → drop offset bs ≡ []
nothing_left offset bs h = elim (Bool-cases (ltb (length bs) offset)) [
  | inl few ↦ drop_behind offset bs (ltb→lt _ _ few)
  | inr enough ↦ empty offset bs (ground arith)
]
  where
    empty : (offset : ℕ) (bs : List ℕ) → length bs < 1 → drop offset bs ≡ []
    empty zero [] h = refl
    empty (suc offset) [] h = refl
    empty offset (b ∷ bs) h = absurd (omega arith)

all_ones : AllBytes (255 ∷ 255 ∷ 255 ∷ 255 ∷ [])
all_ones = (omega arith, (omega arith, (omega arith, (omega arith, tt))))

within :
    (offset : ℕ) (bs : List ℕ)
    → (ltb (length bs) offset || ltb (length bs) 1) ≡ false
    → offset ≤ length bs
within offset bs h = ground arith

-- The search for H.265 and H.266 finds the first start code prefix in the data from the offset on,
-- without the octets at the end that do not fill four.
pub find_h26x_start_code_dwords :
    (c : Codec) (data_ : List ℕ) (offset : ℕ)
    → get_start_code_range c ≡ 4
    → AllBytes data_
    → find_h26x_start_code c data_ offset
      ≡ first_start_code offset (whole_dwords (drop offset data_))
unfolding find_h26x_start_code whole_dwords first_start_code
find_h26x_start_code_dwords c data_ offset four h =
    elim (Bool-cases (ltb (length data_) offset || ltb (length data_) 1)) [
      | inl nothing ↦ rw (nothing, nothing_left offset data_ nothing) refl
      | inr some_data ↦
          rw (some_data, four)
            (Search.search-Agrees (length data_) 255 255 255 255 false offset (drop offset data_)
                all_ones (AllBytes-drop offset data_ h) (omega (arith, length-drop offset data_))
              ∙ scan-first_start_code offset (whole_dwords (drop offset data_)))
    ]

-- The search for H.264 finds the first start code prefix in the data from the offset on; it can miss it
-- only if the prefix ends where the data ends, and then it finds nothing.
pub find_h26x_start_code_octets :
    (data_ : List ℕ) (offset : ℕ)
    → AllBytes data_
    → Finds
        (length data_)
        (find_h26x_start_code h264 data_ offset)
        (first_start_code offset (drop offset data_))
unfolding find_h26x_start_code first_start_code get_start_code_range
find_h26x_start_code_octets data_ offset h =
    elim (Bool-cases (ltb (length data_) offset || ltb (length data_) 1)) [
      | inl nothing ↦ inl (rw (nothing, nothing_left offset data_ nothing) refl)
      | inr some_data ↦ rw some_data (
          let rest = drop offset data_ in
          let end : offset + length rest ≡ length data_ =
            omega (arith, length-drop offset data_, within offset data_ some_data) in
          subst
            (λ (n : ℕ).
              Finds n (search_start_code 1 (length data_) (4294967295, false) false offset rest)
                (first_start_code offset rest))
            end
            (subst
              (Finds (offset + length rest)
                (search_start_code 1 (length data_) (4294967295, false) false offset rest))
              (scan-first_start_code offset rest)
              (SearchByte.search-Agrees (length data_) 255 255 255 255 false offset rest all_ones
                (AllBytes-drop offset data_ h) (omega (arith, length-drop offset data_))
                (SearchByte.Ready-again z0 offset rest refl))))
    ]
