-- ===== src/H26x/Tiles.antt =====
-- src/formats/h26x.cc: the NAL units that scl() lists cover the frame.
use uvg_rtp.Prelude.{
  leb, if◌then◌else◌, length, take, drop, take-append-drop, length-drop, sub64, ℕ, zero, suc, ◌+◌,
  ◌-◌, ◌%◌, ◌^◌, ◌≤◌, ◌<◌, ◌≡◌, refl, sym, ap, ◌∙◌, false, none, some, List, [], ◌∷◌, ◌++◌,
  append-nil, arith,
}
use uvg_rtp.H26x.Headers.{Codec, get_payload_header_size}
use uvg_rtp.H26x.ZeroBytes.{AllBytes}
use uvg_rtp.H26x.StartCode.{Found, find_h26x_start_code}
use uvg_rtp.H26x.Sound.{code, Ends, find_h26x_start_code-Ends}
use uvg_rtp.H26x.Push.{NalInfo, find_nals, nal_size, size_nals, scl}

-- The NAL unit begins behind the prefix that is k octets behind `pos`.
abbrev Follows : List ℕ → ℕ → NalInfo → Type 0
Follows data_ pos nal =
    (k : ℕ) × (nal.offset ≡ pos + k + nal.prefix_len)
    × (3 ≤ nal.prefix_len)
    × (nal.prefix_len ≤ 4)
    × (nal.offset ≤ length data_)
    × (drop (pos + k) data_ ≡ code nal.prefix_len ++ drop nal.offset data_)

-- Each NAL unit follows the one before, and behind the last there is no prefix.
abbrev Chain : Codec → List ℕ → ℕ → List NalInfo → Type 0
Chain c data_ pos [] = find_h26x_start_code c data_ pos ≡ none
Chain c data_ pos (nal ∷ nals) = Follows data_ pos nal × Chain c data_ nal.offset nals

drop-drop : (m n : ℕ) (xs : List ℕ) → drop n (drop m xs) ≡ drop (m + n) xs
drop-drop zero n xs = ap (λ (k : ℕ). drop k xs) (omega arith)
drop-drop (suc m) n [] = nothing_left n ∙ sym (nothing_left (suc m + n))
  where
    nothing_left : (n : ℕ) → drop {A = ℕ} n [] ≡ []
    nothing_left zero = refl
    nothing_left (suc n) = refl
drop-drop (suc m) n (x ∷ xs) = drop-drop m n xs ∙ ap (λ (k : ℕ). drop k (x ∷ xs)) (suc_add m n)
  where
    suc_add : (m n : ℕ) → suc (m + n) ≡ suc m + n
    suc_add m n = omega arith

abbrev nal_at : ℕ → ℕ → NalInfo
nal_at offset start_len = record {
  offset = offset;
  prefix_len = start_len;
  size = 0;
  aggregate = false;
  was_aggregated = false;
}

Ends-Follows :
    (data_ : List ℕ) (pos p n : ℕ) → Ends pos (drop pos data_) p n → Follows data_ pos (nal_at p n)
Ends-Follows data_ pos p n (k, place, low, high, fits, same) = (
  k,
  place,
  low,
  high,
  omega (arith, length-drop pos data_),
  sym (drop-drop pos k data_)
      ∙ same
      ∙ ap (λ (r : List ℕ). code n ++ r)
          (drop-drop pos (k + n) data_ ∙ ap (λ (m : ℕ). drop m data_) (omega arith)),
)

find_nals-Chain :
    (c : Codec) (fuel : ℕ) (data_ : List ℕ) (pos : ℕ) (found : Found)
    → AllBytes data_
    → length data_ ≤ pos + fuel
    → find_h26x_start_code c data_ pos ≡ found
    → Chain c data_ pos (find_nals c fuel data_ found)
unfolding find_nals
find_nals-Chain c zero data_ pos none bytes enough e = e
find_nals-Chain c (suc fuel) data_ pos none bytes enough e = e
find_nals-Chain c zero data_ pos (some (p, n)) bytes enough e =
    let follows = Ends-Follows data_ pos p n (find_h26x_start_code-Ends c data_ pos p n bytes e) in
    absurd (omega arith)
find_nals-Chain c (suc fuel) data_ pos (some (p, n)) bytes enough e =
    let follows = Ends-Follows data_ pos p n (find_h26x_start_code-Ends c data_ pos p n bytes e) in
    (
      follows,
      find_nals-Chain c fuel data_ p (find_h26x_start_code c data_ p) bytes (omega arith) refl,
    )

-- The prefixes and the NAL units, one after the other.
abbrev pub units : List ℕ → List NalInfo → List ℕ
units data_ [] = []
units data_ (nal ∷ nals) =
    code nal.prefix_len ++ (take nal.size (drop nal.offset data_) ++ units data_ nals)

-- Where the next prefix begins, or the frame ends.
abbrev pub end_before : List ℕ → List NalInfo → ℕ
end_before data_ [] = length data_
end_before data_ (nal ∷ nals) = nal.offset - nal.prefix_len

-- Each NAL unit has a prefix of three or four octets and ends where the next prefix begins.
abbrev pub Tiles : List ℕ → List NalInfo → Type 0
Tiles data_ [] = Unit {0}
Tiles data_ (nal ∷ nals) =
    (3 ≤ nal.prefix_len)
    × (nal.prefix_len ≤ 4)
    × (nal.prefix_len ≤ nal.offset)
    × (nal.offset + nal.size ≡ end_before data_ nals)
    × (nal.offset + nal.size ≤ length data_)
    × Tiles data_ nals

take_all : (n : ℕ) (xs : List ℕ) → length xs ≤ n → take n xs ≡ xs
take_all zero [] h = refl
take_all zero (x ∷ xs) h = absurd (omega arith)
take_all (suc n) [] h = refl
take_all (suc n) (x ∷ xs) h = ap (λ (r : List ℕ). x ∷ r) (take_all n xs (omega arith))

sub64_le : (a b : ℕ) → b ≤ a → a < 2 ^ 64 → sub64 a b ≡ a - b
unfolding sub64
sub64_le a b h small = omega arith

module _ (c : Codec) (data_ : List ℕ) (small : length data_ < 2 ^ 64) where
  abbrev sized : ℕ → ℕ → ℕ → List NalInfo → List NalInfo
  sized packet_size sum count nals = (size_nals (length data_) packet_size sum count nals).0

  -- What the loop carries on behind a NAL unit.
  abbrev sum_with : ℕ → ℕ → NalInfo → List NalInfo → ℕ
  sum_with packet_size sum nal nals =
      let more = (sum + nal_size (length data_) nal nals + 2) % 2 ^ 64 in
      if leb more packet_size then more else sum

  abbrev count_with : ℕ → ℕ → ℕ → NalInfo → List NalInfo → ℕ
  count_with packet_size sum count nal nals =
      if leb ((sum + nal_size (length data_) nal nals + 2) % 2 ^ 64) packet_size
      then count + 1
      else count

  size_last :
      (nal : NalInfo) (pos : ℕ)
      → Follows data_ pos nal
      → nal_size (length data_) nal [] ≡ length data_ - nal.offset
  unfolding nal_size
  size_last nal pos (k, place, low, high, within, same) =
      sub64_le (length data_) nal.offset within small

  size_before :
      (nal next : NalInfo) (nals : List NalInfo)
      → (f : Follows data_ nal.offset next) → nal_size (length data_) nal (next ∷ nals) ≡ f.0
  unfolding nal_size
  size_before nal next nals (k, place, low, high, within, same) =
      ap (λ (x : ℕ). sub64 x next.prefix_len)
        (sub64_le next.offset nal.offset (omega arith) (omega arith))
      ∙ sub64_le (next.offset - nal.offset) next.prefix_len (omega arith) (omega arith)
      ∙ omega arith

  units-sized :
      (nal : NalInfo) (nals : List NalInfo) (pos packet_size sum count : ℕ)
      → (f : Follows data_ pos nal) → Chain c data_ nal.offset nals
      → units data_ (sized packet_size sum count (nal ∷ nals)) ≡ drop (pos + f.0) data_
  unfolding size_nals
  units-sized nal [] pos packet_size sum count f chain =
      ap (λ (r : List ℕ). code nal.prefix_len ++ r)
        (append-nil _
          ∙ take_all (nal_size (length data_) nal []) (drop nal.offset data_)
              (omega (arith, length-drop nal.offset data_, size_last nal pos f)))
      ∙ sym f.5
  units-sized nal (next ∷ nals) pos packet_size sum count f (g, chain) =
      let k = g.0 in
      let rest = drop nal.offset data_ in
      let later =
        units-sized next nals nal.offset packet_size (sum_with packet_size sum nal (next ∷ nals))
          (count_with packet_size sum count nal (next ∷ nals)) g chain in
      ap (λ (r : List ℕ). code nal.prefix_len ++ r)
        (ap
            (λ (n : ℕ).
              take n rest
              ++ units data_ (
                  sized packet_size (sum_with packet_size sum nal (next ∷ nals))
                    (count_with packet_size sum count nal (next ∷ nals)) (next ∷ nals)))
            (size_before nal next nals g)
          ∙ ap (λ (r : List ℕ). take k rest ++ r) (later ∙ sym (drop-drop nal.offset k data_))
          ∙ take-append-drop k rest)
      ∙ sym f.5

  sized-Tiles :
      (nals : List NalInfo) (pos packet_size sum count : ℕ)
      → Chain c data_ pos nals
      → Tiles data_ (sized packet_size sum count nals)
  unfolding size_nals
  sized-Tiles [] pos packet_size sum count chain = tt
  sized-Tiles (nal ∷ []) pos packet_size sum count (f, chain) =
      let whole = size_last nal pos f in (f.2, f.3, omega arith, omega arith, omega arith, tt)
  sized-Tiles (nal ∷ next ∷ nals) pos packet_size sum count (f, (g, chain)) =
      let gap = size_before nal next nals g in
      (
        f.2,
        f.3,
        omega arith,
        omega arith,
        omega arith,
        sized-Tiles (next ∷ nals) nal.offset packet_size
            (sum_with packet_size sum nal (next ∷ nals))
            (count_with packet_size sum count nal (next ∷ nals)) (g, chain),
      )

drop_all : (xs : List ℕ) → drop (length xs) xs ≡ []
drop_all [] = refl
drop_all (x ∷ xs) = drop_all xs

-- From the first prefix on.
first_prefix :
    (c : Codec) (data_ : List ℕ) (nals : List NalInfo) (packet_size : ℕ)
    → length data_ < 2 ^ 64
    → Chain c data_ 0 nals
    → units data_ (size_nals (length data_) packet_size 0 0 nals).0
      ≡ drop (end_before data_ (size_nals (length data_) packet_size 0 0 nals).0) data_
unfolding size_nals
first_prefix c data_ [] packet_size small chain = sym (drop_all data_)
first_prefix c data_ (nal ∷ nals) packet_size small (f, chain) =
    units-sized c data_ small nal nals 0 packet_size 0 0 f chain
    ∙ ap (λ (n : ℕ). drop n data_) (omega arith)

-- The NAL units that scl() lists and their prefixes, one after the other, are the frame from the first
-- prefix on: nothing is lost between them or behind them.
pub scl-units :
    (c : Codec) (data_ : List ℕ) (packet_size : ℕ)
    → AllBytes data_
    → length data_ < 2 ^ 64
    → units data_ (scl c data_ packet_size).0
      ≡ drop (end_before data_ (scl c data_ packet_size).0) data_
unfolding scl
scl-units c data_ packet_size bytes small =
    first_prefix c data_ (find_nals c (length data_) data_ (find_h26x_start_code c data_ 0))
      (sub64 packet_size (get_payload_header_size c)) small
      (find_nals-Chain c (length data_) data_ 0 (find_h26x_start_code c data_ 0) bytes (omega arith)
        refl)

-- Each NAL unit that scl() lists lies within the frame, behind a prefix of three or four octets, and
-- ends where the next prefix begins, or where the frame ends.
pub scl-Tiles :
    (c : Codec) (data_ : List ℕ) (packet_size : ℕ)
    → AllBytes data_
    → length data_ < 2 ^ 64
    → Tiles data_ (scl c data_ packet_size).0
unfolding scl
scl-Tiles c data_ packet_size bytes small =
    sized-Tiles c data_ small (find_nals c (length data_) data_ (find_h26x_start_code c data_ 0)) 0
      (sub64 packet_size (get_payload_header_size c)) 0 0
      (find_nals-Chain c (length data_) data_ 0 (find_h26x_start_code c data_ 0) bytes (omega arith)
        refl)
