-- ===== src/H26x/Headers.antt =====
-- src/formats/h264.cc, h265.cc and h266.cc: the payload headers and fragmentation headers of the three
-- codecs. A frame is its payload; a read behind it is `none`. The classes are the constructors of
-- `Codec`, their methods functions by clauses.
use uvg_rtp.Prelude.{
  ℕ, ◌+◌, ◌*◌, ◌/◌, ◌%◌, ◌&&◌, Option, some, List, [], ◌∷◌, ◌==◌, if◌then◌else◌, get_elem?, ◌>>=◌,
  bit_or,
}

pub data Codec : Type 0 where
  h264 h265 h266 : Codec

-- FRAG_TYPE.
pub data FragType : Type 0 where
  ft_invalid ft_not_frag ft_start ft_middle ft_end ft_aggr ft_stap_b : FragType

-- NAL_TYPE.
pub data NalType : Type 0 where
  nt_intra nt_inter nt_other : NalType

unfoldable pub get_payload_header_size : Codec → ℕ
get_payload_header_size h264 = 1
get_payload_header_size h265 = 2
get_payload_header_size h266 = 2

unfoldable pub get_nal_header_size : Codec → ℕ
get_nal_header_size h264 = 1
get_nal_header_size h265 = 2
get_nal_header_size h266 = 2

unfoldable pub get_fu_header_size : Codec → ℕ
get_fu_header_size h264 = 1
get_fu_header_size h265 = 1
get_fu_header_size h266 = 1

-- The tests on the S and E bits, which the three get_fragment_type() share.
unfoldable pub by_fu_bits : ℕ → FragType
by_fu_bits fu =
    let first_frag = fu / 128 % 2 == 1 in
    let last_frag = fu / 64 % 2 == 1 in
    if first_frag && last_frag
    then ft_invalid
    else (if first_frag then ft_start else (if last_frag then ft_end else ft_middle))

-- Each reads all octets first.
unfoldable pub get_fragment_type : Codec → List ℕ → Option FragType
unfolding by_fu_bits
get_fragment_type h264 payload = do
  fu ← get_elem? payload 1
  p0 ← get_elem? payload 0
  some (
      if p0 % 32 == 24
      then ft_aggr
      else (if p0 % 32 == 25
          then ft_stap_b
          else (if p0 % 32 == 28 then by_fu_bits fu else ft_not_frag)))
get_fragment_type h265 payload = do
  fu ← get_elem? payload 2
  p0 ← get_elem? payload 0
  some (if p0 / 2 == 48 then ft_aggr else (if p0 / 2 == 49 then by_fu_bits fu else ft_not_frag))
get_fragment_type h266 payload = do
  fu ← get_elem? payload 2
  p0 ← get_elem? payload 0
  p1 ← get_elem? payload 1
  some (if p0 / 2 == 28 then ft_aggr else (if p1 / 8 == 29 then by_fu_bits fu else ft_not_frag))

-- get_nal_type() of a frame: the type in the fragmentation header.
unfoldable pub get_frame_nal_type : Codec → List ℕ → Option NalType
get_frame_nal_type h264 payload = do
  fu ← get_elem? payload 1
  some (if fu % 32 == 5 then nt_intra else (if fu % 32 == 1 then nt_inter else nt_other))
get_frame_nal_type h265 payload = do
  fu ← get_elem? payload 2
  some (if fu % 64 == 19 then nt_intra else (if fu % 64 == 1 then nt_inter else nt_other))
get_frame_nal_type h266 payload = do
  fu ← get_elem? payload 2
  some (if fu % 64 == 7 then nt_intra else (if fu % 64 == 0 then nt_inter else nt_other))

-- get_nal_type() of a NAL unit.
unfoldable pub get_nal_type : Codec → List ℕ → Option ℕ
get_nal_type h264 nal = do n0 ← get_elem? nal 0; some (n0 % 32)
get_nal_type h265 nal = do n0 ← get_elem? nal 0; some (n0 / 2 % 64)
get_nal_type h266 nal = do n1 ← get_elem? nal 1; some (n1 / 8 % 32)

-- The payload header that fu_division() writes.
unfoldable pub fu_payload_header : Codec → List ℕ → Option (List ℕ)
fu_payload_header h264 nal = do n0 ← get_elem? nal 0; some ((n0 / 32 * 32 + 28) ∷ [])
fu_payload_header h265 nal = do n1 ← get_elem? nal 1; some (98 ∷ (n1 ∷ []))
fu_payload_header h266 nal = do
  n0 ← get_elem? nal 0
  n1 ← get_elem? nal 1
  some (n0 ∷ ((29 * 8 + n1 % 8) ∷ []))

-- initialize_fu_headers(): the headers of the first, the middle and the last fragments.
unfoldable pub initialize_fu_headers : ℕ → ℕ × ℕ × ℕ
initialize_fu_headers nal_type = (bit_or 128 nal_type % 256, nal_type, bit_or 64 nal_type % 256)

-- The octets that get_nal_header_from_fu_headers() puts at `fptr`.
unfoldable pub get_nal_header_from_fu_headers : Codec → List ℕ → Option (List ℕ)
get_nal_header_from_fu_headers h264 payload = do
  p0 ← get_elem? payload 0
  fu ← get_elem? payload 1
  some ((p0 / 32 * 32 + fu % 32) ∷ [])
get_nal_header_from_fu_headers h265 payload = do
  p0 ← get_elem? payload 0
  fu ← get_elem? payload 2
  p1 ← get_elem? payload 1
  some ((p0 / 128 * 128 + fu % 64 * 2 + p0 % 2) ∷ (p1 ∷ []))
get_nal_header_from_fu_headers h266 payload = do
  p0 ← get_elem? payload 0
  p1 ← get_elem? payload 1
  fu ← get_elem? payload 2
  some (p0 ∷ ((fu % 32 * 8 + p1 % 8) ∷ []))
