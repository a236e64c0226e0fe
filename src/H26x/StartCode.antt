-- ===== src/H26x/StartCode.antt =====
-- src/formats/h26x.cc: find_h26x_start_code(), the search for the next start code prefix, which
-- reads the data in words of four and eight octets; H.264 moves on by one octet, the others by four.
-- The machine is little-endian. The data from the position on is a list of octets.
use uvg_rtp.Prelude.{
  ltb, ◌==◌, if◌then◌else◌, length, drop, ℕ, zero, suc, ◌+◌, ◌-◌, ◌*◌, ◌/◌, ◌%◌, ◌^◌, bit_or, Bool,
  true, false, ◌&&◌, ◌||◌, Option, none, some, List, [], ◌∷◌,
}
use uvg_rtp.H26x.Headers.{Codec, h264, h265, h266}
use uvg_rtp.H26x.ZeroBytes.{haszero32, haszero64, le_word}

unfoldable pub get_start_code_range : Codec → ℕ
get_start_code_range h264 = 1
get_start_code_range h265 = 4
get_start_code_range h266 = 4

-- What is returned, and `additional_byte`.
unfoldable pub determine_start_prefix_precense : ℕ → ℕ × Bool
determine_start_prefix_precense value =
    let cur_ls = value / 65536 % 65536 in
    let cur_ms = value % 65536 in
    let ms4z = cur_ms == 0 in
    let ms2z = cur_ms / 256 % 256 == 0 in
    let ls2s = cur_ls % 256 == 1 in
    let ls4s = cur_ls == 256 in
    if ms4z
    then (if ls4s then (4, false) else (if ls2s then (5, false) else (0, false)))
    else (if ms2z && ls4s then (4, true) else (0, false))

-- A position and `start_len`.
abbrev pub Found : Type 0
Found = Option (ℕ × ℕ)

-- The previous word ends in zeros, and this one begins with 1.
unfoldable pub find_after_zeros : ℕ → ℕ → ℕ → Found
find_after_zeros prev cur pos =
    if cur % 256 == 1 && prev / 65536 % 65536 == 0
    then some (pos + 1, (if prev / 256 % 16777216 == 0 then 4 else 3))
    else none

-- The prefix is split between the two words.
unfoldable pub find_split : ℕ → ℕ → ℕ → Found
find_split prev cur pos =
    let cur_ls = cur / 65536 % 65536 in
    let cur_ms = cur % 65536 in
    let prev_ls = prev / 65536 % 65536 in
    let p4z = prev_ls == 0 in
    let p2z = prev_ls / 256 % 256 == 0 in
    let c4s = cur_ms == 256 in
    let c6s = cur_ms == 0 && cur_ls % 256 == 1 in
    if p4z && c4s
    then some (pos + 2, 4)
    else (if p2z
        then (if c6s then some (pos + 3, 4) else (if c4s then some (pos + 2, 3) else none))
        else none)

-- The prefix lies in this word, but for a first zero.
unfoldable pub find_whole : ℕ → ℕ → ℕ → ℕ × Bool → Found
unfolding find_split
find_whole prev cur pos (zero, additional_byte) = find_split prev cur pos
find_whole prev cur pos (suc ret, additional_byte) =
    let unknown = suc ret == 5 in
    let start_len = if unknown then (if prev / 16777216 % 256 == 0 then 4 else 3) else suc ret in
    some (
      pos + (if unknown then 3 else suc ret),
      (if additional_byte then start_len - 1 else start_len),
    )

-- The body of the loop after the prefetch.
unfoldable pub find_in_dword : Bool → Bool → ℕ → ℕ → ℕ → Found
unfolding find_after_zeros find_whole determine_start_prefix_precense
find_in_dword prev_had_zero cur_has_zero prev cur pos =
    if prev_had_zero || cur_has_zero
    then elim (if prev_had_zero then find_after_zeros prev cur pos else none) [
      | some r ↦ some r
      | none ↦ find_whole prev cur pos (determine_start_prefix_precense cur)
    ]
    else none

-- The prefetch: eight octets without a zero are skipped. The position, and the data from there.
unfoldable pub skip_nonzero : ℕ → List ℕ → ℕ × List ℕ
skip_nonzero pos (a ∷ b ∷ c ∷ d ∷ e ∷ f ∷ g ∷ h ∷ rest) =
    if haszero64 (le_word (a ∷ b ∷ c ∷ d ∷ e ∷ f ∷ g ∷ h ∷ []))
    then (pos, a ∷ b ∷ c ∷ d ∷ e ∷ f ∷ g ∷ h ∷ rest)
    else skip_nonzero (pos + 8) rest
skip_nonzero pos rest = (pos, rest)

unfoldable pub prefetch : Bool → Bool → ℕ → List ℕ → ℕ × List ℕ
unfolding skip_nonzero
prefetch prev_had_zero cur_has_zero pos rest =
    if prev_had_zero || cur_has_zero then (pos, rest) else skip_nonzero pos rest

-- `*(uint32_t*)(data + pos)`, if `pos + 4 <= len`.
unfoldable pub read_dword : List ℕ → Option ℕ
read_dword (a ∷ b ∷ c ∷ d ∷ rest) = some (le_word (a ∷ b ∷ c ∷ d ∷ []))
read_dword rest = none

-- `prev_value32` and `prev_had_zero` for the next round.
unfoldable pub next_previous : ℕ → ℕ → ℕ → ℕ × Bool
next_previous range prev cur =
    if range == 4
    then (cur, haszero32 cur)
    else (let value = bit_or (cur * 2 ^ (8 * (4 - range)) % 2 ^ 32) (prev / 2 ^ (8 * range)) in
        (value, haszero32 value))

-- The loop. Each round moves on by an octet at least.
unfoldable pub search_start_code : ℕ → ℕ → ℕ × Bool → Bool → ℕ → List ℕ → Found
unfolding find_in_dword prefetch read_dword next_previous
search_start_code range zero previous cur_has_zero pos rest = none
search_start_code range (suc fuel) (prev, prev_had_zero) cur_has_zero pos rest =
    let (at, from) = prefetch prev_had_zero cur_has_zero pos rest in
    elim (read_dword from) [
      | none ↦ none
      | some cur ↦ elim (find_in_dword prev_had_zero (haszero32 cur) prev cur at) [
        | some r ↦ some r
        | none ↦
            search_start_code range fuel (next_previous range prev cur) (haszero32 cur) (at + range)
              (drop range from)
      ]
    ]

-- `none` is -1.
unfoldable pub find_h26x_start_code : Codec → List ℕ → ℕ → Found
unfolding search_start_code
find_h26x_start_code c data_ offset =
    if ltb (length data_) offset || ltb (length data_) 1
    then none
    else search_start_code (get_start_code_range c) (length data_) (2 ^ 32 - 1, false) false offset
        (drop offset data_)

-- The reference: the first place where 0 0 1 stands, and whether another zero is before it.
unfoldable pub first_start_code : ℕ → List ℕ → Found
first_start_code pos [] = none
first_start_code pos (zero ∷ zero ∷ suc zero ∷ rest) = some (pos + 3, 3)
first_start_code pos (zero ∷ zero ∷ zero ∷ suc zero ∷ rest) = some (pos + 4, 4)
first_start_code pos (b ∷ rest) = first_start_code (pos + 1) rest
