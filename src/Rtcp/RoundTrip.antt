-- ===== src/Rtcp/RoundTrip.antt =====
-- Control packets that are read back as they were written.
use uvg_rtp.Prelude.{
  ℕ, suc, ◌+◌, ◌-◌, ◌*◌, ◌/◌, ◌%◌, ◌^◌, ◌≤◌, ◌<◌, ◌≡◌, refl, sym, ap, ◌∙◌, arith, true, false, some,
  List, [], ◌∷◌, ◌++◌, append_assoc, append-nil, length, length-append, get_elem?-skip,
  get_elem?-start, read16, read32, read16-skip, read32-skip, read32-start, put16, put32, put16_lem,
  put32_lem, be16, be32, bit_and, bit_or, bit_or_disjoint, bit_and_fffffd, ◌==◌, ltb, IsByte, IsU16,
  IsU32,
}
use uvg_rtp.Rtcp.Packets.{
  RtcpFrameType, frame_type_number, construct_rtcp_header, construct_report_block,
}
use uvg_rtp.Rtcp.Read.{
  RtcpHeader, ReportBlock, rtcp_length_in_bytes, read_rtcp_header, read_report, read_reports,
}

-- What a report block is written from.
pub record Report : Type 0 where
  pub ssrc : ℕ
  pub fraction : ℕ
  pub dropped_packets : ℕ
  pub seq_cycles : ℕ
  pub max_seq : ℕ
  pub jitter : ℕ
  pub lsr : ℕ
  pub dlsr : ℕ

pub record ReportFits (r : Report) : Type 0 where
  pub ssrc_fits : IsU32 r.ssrc
  pub fraction_fits : IsByte r.fraction
  pub dropped_fits : r.dropped_packets < 16777216
  pub cycles_fits : IsU16 r.seq_cycles
  pub max_fits : IsU16 r.max_seq
  pub jitter_fits : IsU32 r.jitter
  pub lsr_fits : IsU32 r.lsr
  pub dlsr_fits : IsU32 r.dlsr

-- The block that a report is read back as: of the lost packets, the bit of value 2 is cleared.
abbrev pub block_of : Report → ReportBlock
block_of r = record {
  ssrc = r.ssrc;
  fraction = r.fraction;
  lost = r.dropped_packets - r.dropped_packets / 2 % 2 * 2;
  last_seq = r.seq_cycles * 65536 + r.max_seq;
  jitter = r.jitter;
  lsr = r.lsr;
  dlsr = r.dlsr;
}

unfoldable pub write_reports : List ℕ → List Report → List ℕ
write_reports frame [] = frame
write_reports frame (r ∷ rs) =
    write_reports
      (construct_report_block frame r.ssrc r.fraction r.dropped_packets r.seq_cycles r.max_seq
        r.jitter r.lsr r.dlsr)
      rs

abbrev pub AllFit : List Report → Type 0
AllFit [] = Unit {0}
AllFit (r ∷ rs) = ReportFits r × AllFit rs

abbrev pub blocks_of : List Report → List ReportBlock
blocks_of [] = []
blocks_of (r ∷ rs) = block_of r ∷ blocks_of rs

unfoldable block_bytes : Report → List ℕ
block_bytes r =
    put32 r.ssrc
    ++ (put32 (r.fraction * 16777216 + r.dropped_packets)
        ++ (put32 (r.seq_cycles * 65536 + r.max_seq)
            ++ (put32 r.jitter ++ (put32 r.lsr ++ put32 r.dlsr))))

construct_report_block-bytes :
    (frame : List ℕ) (r : Report)
    → ReportFits r
    → construct_report_block frame r.ssrc r.fraction r.dropped_packets r.seq_cycles r.max_seq
        r.jitter r.lsr r.dlsr
      ≡ frame ++ block_bytes r
unfolding construct_report_block block_bytes
construct_report_block-bytes frame r fits = rw (
  bit_or_disjoint 24 r.fraction r.dropped_packets fits.dropped_fits,
  bit_or_disjoint 16 r.seq_cycles r.max_seq fits.max_fits,
)

read_report-bytes :
    (r : Report) (rest : List ℕ)
    → ReportFits r
    → read_report (block_bytes r ++ rest) 0 ≡ some (block_of r)
unfolding read_report read32 block_bytes
read_report-bytes r rest fits =
    let word : ℕ = r.fraction * 16777216 + r.dropped_packets in
    let ext : ℕ = r.seq_cycles * 65536 + r.max_seq in
    let read_word : ℕ =
      be32 (word / 16777216 % 256) (word / 65536 % 256) (word / 256 % 256) (word % 256) in
    let ew = put32_lem word (omega arith) in
    let fraction : read_word / 16777216 ≡ r.fraction =
      ap (λ (x : ℕ). x / 16777216) ew ∙ omega arith in
    let lost : bit_and read_word 0xfffffd ≡ r.dropped_packets - r.dropped_packets / 2 % 2 * 2 =
      ap (λ (x : ℕ). bit_and x 0xfffffd) ew ∙ bit_and_fffffd word ∙ omega arith in
    let last = put32_lem ext (omega arith) in
    let ssrc = put32_lem r.ssrc fits.ssrc_fits in
    let jitter = put32_lem r.jitter fits.jitter_fits in
    let lsr = put32_lem r.lsr fits.lsr_fits in
    let dlsr = put32_lem r.dlsr fits.dlsr_fits in
    λ i. some (record {
      ssrc = ssrc i;
      fraction = fraction i;
      lost = lost i;
      last_seq = last i;
      jitter = jitter i;
      lsr = lsr i;
      dlsr = dlsr i;
    })

read_report-skip : (pre xs : List ℕ) → read_report (pre ++ xs) (length pre) ≡ read_report xs 0
unfolding read_report
read_report-skip pre xs = rw (
  read32-start pre xs,
  read32-skip pre xs 4,
  read32-skip pre xs 8,
  read32-skip pre xs 12,
  read32-skip pre xs 16,
  read32-skip pre xs 20,
)

all_bytes : List Report → List ℕ
all_bytes [] = []
all_bytes (r ∷ rs) = block_bytes r ++ all_bytes rs

write_reports-bytes :
    (frame : List ℕ) (rs : List Report) → AllFit rs → write_reports frame rs ≡ frame ++ all_bytes rs
unfolding write_reports all_bytes
write_reports-bytes frame [] fits = sym (append-nil frame)
write_reports-bytes frame (r ∷ rs) fits =
    ap (λ (f : List ℕ). write_reports f rs) (construct_report_block-bytes frame r fits.0)
    ∙ write_reports-bytes (frame ++ block_bytes r) rs fits.1
    ∙ append_assoc frame (block_bytes r) (all_bytes rs)

read_reports-nil :
    (buffer : List ℕ) (packet_end read_ptr : ℕ)
    → read_reports buffer read_ptr packet_end 0 ≡ some ([], read_ptr + 0)
unfolding read_reports
read_reports-nil buffer packet_end read_ptr = ap (λ (e : ℕ). some ([], e)) (omega arith)

length-block_bytes : (r : Report) → length (block_bytes r) ≡ 24
unfolding block_bytes
length-block_bytes r = refl

read_reports-cons :
    (buffer : List ℕ) (read_ptr packet_end n e : ℕ) (b : ReportBlock) (bs : List ReportBlock)
    → read_ptr + 24 ≤ packet_end
    → read_report buffer read_ptr ≡ some b
    → read_reports buffer (read_ptr + 24) packet_end n ≡ some (bs, e)
    → read_reports buffer read_ptr packet_end (suc n) ≡ some (b ∷ bs, e)
unfolding read_reports
read_reports-cons buffer read_ptr packet_end n e b bs h one more = rw (one, more) (ground arith)

read_reports-bytes :
    (pre rest : List ℕ) (packet_end : ℕ) (rs : List Report)
    → AllFit rs
    → length pre + length (all_bytes rs) ≤ packet_end
    → read_reports (pre ++ (all_bytes rs ++ rest)) (length pre) packet_end (length rs)
      ≡ some (blocks_of rs, length pre + length (all_bytes rs))
unfolding all_bytes
read_reports-bytes pre rest packet_end [] fits h =
    read_reports-nil (pre ++ rest) packet_end (length pre)
read_reports-bytes pre rest packet_end (r ∷ rs) fits h =
    let next : List ℕ = pre ++ block_bytes r in
    let here = length-block_bytes r in
    let ahead : length next ≡ length pre + 24 = omega (arith, length-append pre (block_bytes r)) in
    let whole = length-append (block_bytes r) (all_bytes rs) in
    let buffer : pre ++ ((block_bytes r ++ all_bytes rs) ++ rest) ≡ next ++ (all_bytes rs ++ rest) =
      ap (λ (x : List ℕ). pre ++ x) (append_assoc (block_bytes r) (all_bytes rs) rest)
      ∙ sym (append_assoc pre (block_bytes r) (all_bytes rs ++ rest)) in
    let flat = append_assoc (block_bytes r) (all_bytes rs) rest in
    let one : read_report (pre ++ ((block_bytes r ++ all_bytes rs) ++ rest)) (length pre)
        ≡ some (block_of r) =
      read_report-skip pre _
      ∙ ap (λ (x : List ℕ). read_report x 0) flat
      ∙ read_report-bytes r (all_bytes rs ++ rest) fits.0 in
    let more = read_reports-bytes next rest packet_end rs fits.1 (omega arith) in
    let more' : read_reports (pre ++ ((block_bytes r ++ all_bytes rs) ++ rest)) (length pre + 24)
          packet_end (length rs)
        ≡ some (blocks_of rs, length next + length (all_bytes rs)) =
      (λ i. read_reports (buffer i) (sym ahead i) packet_end (length rs)) ∙ more in
    read_reports-cons _ (length pre) packet_end (length rs) _ _ _ (omega arith) one more'
    ∙ ap (λ (e : ℕ). some (block_of r ∷ blocks_of rs, e)) (omega arith)

-- Report blocks whose fields fit, written one after another, are read back, as many as were written
-- and up to the end of the last, when the packet ends there or later; except that of each number of
-- lost packets the bit of value 2 is read as clear.
pub read_reports-write_reports :
    (frame rest : List ℕ) (packet_end : ℕ) (rs : List Report)
    → AllFit rs
    → length (write_reports frame rs) ≤ packet_end
    → read_reports (write_reports frame rs ++ rest) (length frame) packet_end (length rs)
      ≡ some (blocks_of rs, length (write_reports frame rs))
read_reports-write_reports frame rest packet_end rs fits h =
    let w = write_reports-bytes frame rs fits in
    let len = ap length w ∙ length-append frame (all_bytes rs) in
    ap (λ (x : List ℕ). read_reports (x ++ rest) (length frame) packet_end (length rs)) w
    ∙ ap (λ (x : List ℕ). read_reports x (length frame) packet_end (length rs))
        (append_assoc frame (all_bytes rs) rest)
    ∙ read_reports-bytes frame rest packet_end rs fits (omega arith)
    ∙ ap (λ (e : ℕ). some (blocks_of rs, e)) (sym len)

abbrev header_octets : ℕ → ℕ → RtcpFrameType → List ℕ
header_octets packet_size count t =
    (128 + count) ∷ (frame_type_number t ∷ put16 (packet_size / 4 - 1))

abbrev header_of : ℕ → ℕ → RtcpFrameType → RtcpHeader
header_of packet_size count t = record {
  version = 2;
  padding = 0;
  count = count;
  pkt_type = frame_type_number t;
  length = packet_size / 4 - 1;
}

construct_rtcp_header-octets :
    (frame : List ℕ) (packet_size count : ℕ) (t : RtcpFrameType)
    → packet_size % 4 ≡ 0
    → 4 ≤ packet_size
    → packet_size ≤ 65535
    → count < 32
    → construct_rtcp_header frame packet_size count t
      ≡ (true, frame ++ header_octets packet_size count t)
unfolding construct_rtcp_header
construct_rtcp_header-octets frame packet_size count t words least most few =
    let first : bit_or 128 count % 256 ≡ 128 + count =
      ap (λ (x : ℕ). x % 256) (bit_or_disjoint 5 4 count (omega arith)) ∙ omega arith in
    let len : (packet_size % 2 ^ 16 / 4 + 2 ^ 64 - 1) % 2 ^ 16 ≡ packet_size / 4 - 1 =
      omega arith in
    let small : ltb 65535 packet_size ≡ false = ground arith in
    let whole : (packet_size % 4 == 0) ≡ true = ground arith in rw (small, whole, first, len) refl

read_rtcp_header-octets :
    (frame rest : List ℕ) (packet_size count : ℕ) (t : RtcpFrameType)
    → 4 ≤ packet_size
    → packet_size ≤ 65535
    → count < 32
    → read_rtcp_header ((frame ++ header_octets packet_size count t) ++ rest) (length frame)
      ≡ some (header_of packet_size count t, length frame + 4)
unfolding read_rtcp_header read16
read_rtcp_header-octets frame rest packet_size count t least most few =
    let xs : List ℕ = header_octets packet_size count t ++ rest in
    let n : ℕ = packet_size / 4 - 1 in
    let version : (128 + count) / 64 % 4 ≡ 2 = omega arith in
    let padding : (128 + count) / 32 % 2 ≡ 0 = omega arith in
    let counted : (128 + count) % 32 ≡ count = omega arith in
    let len : be16 (n / 256 % 256) (n % 256) ≡ n = put16_lem n (omega arith) in
    rw
      (
        append_assoc frame (header_octets packet_size count t) rest,
        get_elem?-start frame xs,
        get_elem?-skip frame xs 1,
        read16-skip frame xs 2,
      )
      (λ i. some (
        record {
          version = version i;
          padding = padding i;
          count = counted i;
          pkt_type = frame_type_number t;
          length = len i;
        },
        length frame + 4,
      ))

-- A header for a packet of whole words, between 4 and 65532 octets, with a count below 32, is
-- written, and is read back with version 2, no padding, the count, the type, and a length field that
-- stands for the packet's size.
pub read_rtcp_header-construct_rtcp_header :
    (frame rest : List ℕ) (packet_size count : ℕ) (t : RtcpFrameType)
    → packet_size % 4 ≡ 0
    → 4 ≤ packet_size
    → packet_size ≤ 65535
    → count < 32
    → (written : List ℕ) × (len : ℕ) × (construct_rtcp_header frame packet_size count t
        ≡ (true, written))
      × (read_rtcp_header (written ++ rest) (length frame)
          ≡ some (
            record {
              version = 2;
              padding = 0;
              count = count;
              pkt_type = frame_type_number t;
              length = len;
            },
            length frame + 4,
          ))
      × (rtcp_length_in_bytes len ≡ packet_size)
unfolding rtcp_length_in_bytes
read_rtcp_header-construct_rtcp_header frame rest packet_size count t words least most few = (
  frame ++ header_octets packet_size count t,
  packet_size / 4 - 1,
  construct_rtcp_header-octets frame packet_size count t words least most few,
  read_rtcp_header-octets frame rest packet_size count t least most few,
  omega arith,
)
