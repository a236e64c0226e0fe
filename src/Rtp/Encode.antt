-- ===== src/Rtp/Encode.antt =====
-- The RTP packet of RFC 3550, section 5.1, written out: what `packet_handler` is to take apart.
use uvg_rtp.Prelude.{
  ℕ, zero, suc, ◌+◌, ◌*◌, ◌/◌, ◌%◌, ◌≤◌, ◌<◌, ◌≡◌, Option, none, some, List, [], ◌∷◌, ◌++◌, length,
  replicate, put16, put32, IsU16, IsU32,
}
use uvg_rtp.Frame.{RtpHeader, ExtHeader, RtpFrame}

abbrev pub header_bytes : RtpHeader → List ℕ
header_bytes h =
    (h.version * 64 + h.padding * 32 + h.ext * 16 + h.cc)
    ∷ ((h.marker * 128 + h.payload) ∷ (put16 h.seq ++ (put32 h.timestamp ++ put32 h.ssrc)))

abbrev pub csrc_bytes : List ℕ → List ℕ
csrc_bytes [] = []
csrc_bytes (v ∷ vs) = put32 v ++ csrc_bytes vs

-- The entries with the four octets of each in reverse order.
abbrev pub octets_reversed : List ℕ → List ℕ
octets_reversed [] = []
octets_reversed (v ∷ vs) =
    (v % 256 * 16777216 + v / 256 % 256 * 65536 + v / 65536 % 256 * 256 + v / 16777216 % 256)
    ∷ octets_reversed vs

abbrev pub ext_bytes : Option ExtHeader → List ℕ
ext_bytes none = []
ext_bytes (some e) = put16 e.type ++ (put16 (e.len / 4) ++ e.bytes)

-- The last octet counts the padding, itself included.
abbrev pub padding_bytes : ℕ → List ℕ
padding_bytes zero = []
padding_bytes (suc n) = replicate n 0 ++ (suc n ∷ [])

abbrev pub packet_bytes : RtpFrame → List ℕ
packet_bytes f =
    header_bytes f.header
    ++ (csrc_bytes f.csrc ++ (ext_bytes f.ext ++ (f.payload ++ padding_bytes f.padding_len)))

pub record HeaderFits (h : RtpHeader) : Type 0 where
  pub version_two : h.version ≡ 2
  pub padding_bit : h.padding < 2
  pub ext_bit : h.ext < 2
  pub cc_bits : h.cc < 16
  pub marker_bit : h.marker < 2
  pub payload_bits : h.payload < 128
  pub seq_fits : IsU16 h.seq
  pub timestamp_fits : IsU32 h.timestamp
  pub ssrc_fits : IsU32 h.ssrc

abbrev pub AllU32 : List ℕ → Type 0
AllU32 [] = Unit {0}
AllU32 (v ∷ vs) = IsU32 v × AllU32 vs

-- The X bit is set exactly if there is an extension, of whole words.
abbrev pub ExtFits : ℕ → Option ExtHeader → Type 0
ExtFits x none = x ≡ 0
ExtFits x (some e) =
    (x ≡ 1) × IsU16 e.type × (e.len ≡ length e.bytes) × (e.len % 4 ≡ 0) × IsU16 e.len

-- The P bit is set exactly if there is padding, behind a payload that is not empty.
abbrev pub PaddingFits : ℕ → ℕ → ℕ → Type 0
PaddingFits p zero payload_len = p ≡ 0
PaddingFits p (suc n) payload_len = (p ≡ 1) × (suc n < 256) × (1 ≤ payload_len)

-- A frame whose fields agree with one another.
pub record FrameFits (f : RtpFrame) : Type 0 where
  pub header_fits : HeaderFits f.header
  pub csrc_counted : f.header.cc ≡ length f.csrc
  pub csrc_fits : AllU32 f.csrc
  pub ext_fits : ExtFits f.header.ext f.ext
  pub padding_fits : PaddingFits f.header.padding f.padding_len f.payload_len
  pub payload_counted : f.payload_len ≡ length f.payload
  pub payload_bounded : f.payload_len < 9223372036854000000
