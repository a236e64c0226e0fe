-- ===== src/H26x/HeaderLaws.antt =====
-- The headers of fragments, as the receiver reads them.
use uvg_rtp.Prelude.{
  ℕ, ◌+◌, ◌*◌, ◌/◌, ◌%◌, ◌<◌, ◌≡◌, ◌≢◌, refl, ap, ◌∙◌, arith, true, false, some, List, [], ◌∷◌,
  ◌++◌, ◌==◌, bit_or, bit_or_disjoint, IsByte,
}
use uvg_rtp.H26x.Headers.{
  Codec, h264, h265, h266, FragType, ft_start, ft_middle, ft_end, by_fu_bits, get_fragment_type,
  get_nal_type, fu_payload_header, initialize_fu_headers, get_nal_header_from_fu_headers,
}

-- The NAL unit header that is rebuilt from a fragment. For H.265 the first bit and the last bit of the
-- first octet, which is the high bit of the layer, are lost.
abbrev pub rebuilt_header : Codec → ℕ → ℕ → List ℕ
rebuilt_header h264 n0 n1 = n0 ∷ []
rebuilt_header h265 n0 n1 = (n0 / 2 % 64 * 2) ∷ (n1 ∷ [])
rebuilt_header h266 n0 n1 = n0 ∷ (n1 ∷ [])

-- An H.266 fragment with such a first octet is taken for an aggregation packet.
abbrev pub NotAggregation : Codec → ℕ → Type 0
NotAggregation h264 n0 = Unit {0}
NotAggregation h265 n0 = Unit {0}
NotAggregation h266 n0 = n0 / 2 ≢ 28

-- What the receiver makes of a fragment.
abbrev pub ReadAs : Codec → List ℕ → FragType → List ℕ → Type 0
ReadAs c payload type nal_header =
    (get_fragment_type c payload ≡ some type)
    × (get_nal_header_from_fu_headers c payload ≡ some nal_header)

fu_octets : (t : ℕ) → t < 64 → ((bit_or 128 t % 256) ≡ 128 + t) × ((bit_or 64 t % 256) ≡ 64 + t)
fu_octets t h = (
  ap (λ (x : ℕ). x % 256) (bit_or_disjoint 6 2 t h) ∙ omega arith,
  ap (λ (x : ℕ). x % 256) (bit_or_disjoint 6 1 t h) ∙ omega arith,
)

read_h264 :
    (n0 fu : ℕ) (chunk : List ℕ) (type : FragType)
    → IsByte n0
    → fu % 32 ≡ n0 % 32
    → by_fu_bits fu ≡ type
    → ReadAs h264 ((n0 / 32 * 32 + 28) ∷ (fu ∷ chunk)) type (n0 ∷ [])
unfolding get_fragment_type get_nal_header_from_fu_headers
read_h264 n0 fu chunk type b e kind =
    let aggr : ((n0 / 32 * 32 + 28) % 32 == 24) ≡ false = ground arith in
    let stap : ((n0 / 32 * 32 + 28) % 32 == 25) ≡ false = ground arith in
    let frag : ((n0 / 32 * 32 + 28) % 32 == 28) ≡ true = ground arith in
    let same : (n0 / 32 * 32 + 28) / 32 * 32 + fu % 32 ≡ n0 = omega arith in
    (rw (aggr, stap, frag, kind) refl, ap (λ (x : ℕ). some (x ∷ [])) same)

read_h265 :
    (n0 n1 fu : ℕ) (chunk : List ℕ) (type : FragType)
    → fu % 64 ≡ n0 / 2 % 64
    → by_fu_bits fu ≡ type
    → ReadAs h265 (98 ∷ (n1 ∷ (fu ∷ chunk))) type ((n0 / 2 % 64 * 2) ∷ (n1 ∷ []))
unfolding get_fragment_type get_nal_header_from_fu_headers
read_h265 n0 n1 fu chunk type e kind =
    let same : 98 / 128 * 128 + fu % 64 * 2 + 98 % 2 ≡ n0 / 2 % 64 * 2 = omega arith in
    (rw kind refl, ap (λ (x : ℕ). some (x ∷ (n1 ∷ []))) same)

read_h266 :
    (n0 n1 fu : ℕ) (chunk : List ℕ) (type : FragType)
    → IsByte n1
    → n0 / 2 ≢ 28
    → fu % 32 ≡ n1 / 8 % 32
    → by_fu_bits fu ≡ type
    → ReadAs h266 (n0 ∷ ((29 * 8 + n1 % 8) ∷ (fu ∷ chunk))) type (n0 ∷ (n1 ∷ []))
unfolding get_fragment_type get_nal_header_from_fu_headers
read_h266 n0 n1 fu chunk type b ne e kind =
    let aggr : (n0 / 2 == 28) ≡ false = ground arith in
    let frag : ((29 * 8 + n1 % 8) / 8 == 29) ≡ true = ground arith in
    let same : fu % 32 * 8 + (29 * 8 + n1 % 8) % 8 ≡ n1 = omega arith in
    (rw (aggr, frag, kind) refl, ap (λ (x : ℕ). some (n0 ∷ (x ∷ []))) same)

bits_start : (t : ℕ) → t < 64 → by_fu_bits (128 + t) ≡ ft_start
unfolding by_fu_bits
bits_start t h = ground arith

bits_middle : (t : ℕ) → t < 64 → by_fu_bits t ≡ ft_middle
unfolding by_fu_bits
bits_middle t h = ground arith

bits_end : (t : ℕ) → t < 64 → by_fu_bits (64 + t) ≡ ft_end
unfolding by_fu_bits
bits_end t h = ground arith

-- For every NAL unit of the three codecs (its first octet not 56 or 57 for H.266), the headers that the
-- sender puts before its fragments are read as a first, a middle and a last fragment, and from each
-- the receiver rebuilds the NAL unit's header: the same octets for H.264 and H.266, for H.265 without
-- the first bit and the high bit of the layer.
pub fu_headers_lem :
    (c : Codec) (n0 n1 : ℕ) (rest chunk : List ℕ)
    → IsByte n0
    → IsByte n1
    → NotAggregation c n0
    → (header : List ℕ) × (t first middle last : ℕ) × (fu_payload_header c (n0 ∷ n1 ∷ rest)
        ≡ some header)
      × (get_nal_type c (n0 ∷ n1 ∷ rest) ≡ some t)
      × (initialize_fu_headers t ≡ (first, middle, last))
      × ReadAs c (header ++ (first ∷ chunk)) ft_start (rebuilt_header c n0 n1)
      × ReadAs c (header ++ (middle ∷ chunk)) ft_middle (rebuilt_header c n0 n1)
      × ReadAs c (header ++ (last ∷ chunk)) ft_end (rebuilt_header c n0 n1)
unfolding fu_payload_header get_nal_type initialize_fu_headers
fu_headers_lem h264 n0 n1 rest chunk b0 b1 n =
    let t : ℕ = n0 % 32 in
    let (e, e') = fu_octets t (omega arith) in
    (
      (n0 / 32 * 32 + 28) ∷ [],
      t,
      128 + t,
      t,
      64 + t,
      refl,
      refl,
      (λ i. (e i, t, e' i)),
      read_h264 n0 (128 + t) chunk ft_start b0 (omega arith) (bits_start t (omega arith)),
      read_h264 n0 t chunk ft_middle b0 (omega arith) (bits_middle t (omega arith)),
      read_h264 n0 (64 + t) chunk ft_end b0 (omega arith) (bits_end t (omega arith)),
    )
fu_headers_lem h265 n0 n1 rest chunk b0 b1 n =
    let t : ℕ = n0 / 2 % 64 in
    let (e, e') = fu_octets t (omega arith) in
    (
      98 ∷ (n1 ∷ []),
      t,
      128 + t,
      t,
      64 + t,
      refl,
      refl,
      (λ i. (e i, t, e' i)),
      read_h265 n0 n1 (128 + t) chunk ft_start (omega arith) (bits_start t (omega arith)),
      read_h265 n0 n1 t chunk ft_middle (omega arith) (bits_middle t (omega arith)),
      read_h265 n0 n1 (64 + t) chunk ft_end (omega arith) (bits_end t (omega arith)),
    )
fu_headers_lem h266 n0 n1 rest chunk b0 b1 n =
    let t : ℕ = n1 / 8 % 32 in
    let (e, e') = fu_octets t (omega arith) in
    (
      n0 ∷ ((29 * 8 + n1 % 8) ∷ []),
      t,
      128 + t,
      t,
      64 + t,
      refl,
      refl,
      (λ i. (e i, t, e' i)),
      read_h266 n0 n1 (128 + t) chunk ft_start b1 n (omega arith) (bits_start t (omega arith)),
      read_h266 n0 n1 t chunk ft_middle b1 n (omega arith) (bits_middle t (omega arith)),
      read_h266 n0 n1 (64 + t) chunk ft_end b1 n (omega arith) (bits_end t (omega arith)),
    )
