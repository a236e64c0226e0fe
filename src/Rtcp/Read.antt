-- ===== src/Rtcp/Read.antt =====
-- src/rtcp.cc: how control packets are read. The buffer is the list of its octets and `read_ptr` an
-- index into it; a read behind the buffer is `none`.
use uvg_rtp.Prelude.{
  ℕ, zero, suc, ◌+◌, ◌-◌, ◌*◌, ◌/◌, ◌%◌, ◌^◌, Option, none, some, List, [], ◌∷◌, ◌==◌, leb,
  if◌then◌else◌, get_elem?, drop, ◌>>=◌, read16, read32, take_exact, bit_and, sub64,
}
use uvg_rtp.Rtcp.Packets.{SdesItem, SdesChunk}

-- struct rtcp_header. `count` is the union with `pkt_subtype` and `fmt`.
pub record RtcpHeader : Type 0 where
  pub version : ℕ
  pub padding : ℕ
  pub count : ℕ
  pub pkt_type : ℕ
  pub length : ℕ

-- struct rtcp_report_block.
pub record ReportBlock : Type 0 where
  pub ssrc : ℕ
  pub fraction : ℕ
  pub lost : ℕ
  pub last_seq : ℕ
  pub jitter : ℕ
  pub lsr : ℕ
  pub dlsr : ℕ

-- struct rtcp_sender_info.
pub record SenderInfo : Type 0 where
  pub ntp_msw : ℕ
  pub ntp_lsw : ℕ
  pub rtp_ts : ℕ
  pub pkt_cnt : ℕ
  pub byte_cnt : ℕ

unfoldable pub rtcp_length_in_bytes : ℕ → ℕ
rtcp_length_in_bytes len = (len + 1) * 4

-- All three fields of the union are octet 0's five low bits.
unfoldable pub read_rtcp_header : List ℕ → ℕ → Option (RtcpHeader × ℕ)
read_rtcp_header buffer read_ptr = do
  b0 ← get_elem? buffer read_ptr
  pkt_type ← get_elem? buffer (read_ptr + 1)
  len ← read16 buffer (read_ptr + 2)
  some (
    record {
      version = b0 / 64 % 4;
      padding = b0 / 32 % 2;
      count = b0 % 32;
      pkt_type = pkt_type;
      length = len;
    },
    read_ptr + 4,
  )

unfoldable pub read_report : List ℕ → ℕ → Option ReportBlock
read_report buffer read_ptr = do
  ssrc ← read32 buffer read_ptr
  word ← read32 buffer (read_ptr + 4)
  last_seq ← read32 buffer (read_ptr + 8)
  jitter ← read32 buffer (read_ptr + 12)
  lsr ← read32 buffer (read_ptr + 16)
  dlsr ← read32 buffer (read_ptr + 20)
  some (record {
    ssrc = ssrc;
    fraction = word / 2 ^ 24;
    lost = bit_and word 0xfffffd;
    last_seq = last_seq;
    jitter = jitter;
    lsr = lsr;
    dlsr = dlsr;
  })

unfoldable pub read_reports : List ℕ → ℕ → ℕ → ℕ → Option (List ReportBlock × ℕ)
unfolding read_report
read_reports buffer read_ptr packet_end zero = some ([], read_ptr)
read_reports buffer read_ptr packet_end (suc count) =
    let rest = λ (p : ℕ). read_reports buffer p packet_end count in
    if leb (read_ptr + 24) packet_end
    then (do
      report ← read_report buffer read_ptr
      (reports, end) ← rest (read_ptr + 24)
      some (report ∷ reports, end))
    else rest read_ptr

unfoldable pub read_ssrc : List ℕ → ℕ → Option (ℕ × ℕ)
read_ssrc buffer read_ptr = do ssrc ← read32 buffer read_ptr; some (ssrc, read_ptr + 4)

-- The sender info of handle_sender_report_packet().
unfoldable pub read_sender_info : List ℕ → ℕ → Option (SenderInfo × ℕ)
read_sender_info buffer read_ptr = do
  ntp_msw ← read32 buffer read_ptr
  ntp_lsw ← read32 buffer (read_ptr + 4)
  rtp_ts ← read32 buffer (read_ptr + 8)
  pkt_cnt ← read32 buffer (read_ptr + 12)
  byte_cnt ← read32 buffer (read_ptr + 16)
  some (
    record {
      ntp_msw = ntp_msw;
      ntp_lsw = ntp_lsw;
      rtp_ts = rtp_ts;
      pkt_cnt = pkt_cnt;
      byte_cnt = byte_cnt;
    },
    read_ptr + 20,
  )

-- The items of a chunk. An item whose data would pass the packet's end is kept without data. Each
-- round goes on by two octets at least.
unfoldable pub read_items : ℕ → List ℕ → ℕ → ℕ → Option (List SdesItem × ℕ)
read_items zero packet read_ptr packet_end = none
read_items (suc fuel) packet read_ptr packet_end =
    let rest = λ (p : ℕ). read_items fuel packet p packet_end in
    if leb (read_ptr + 2) packet_end
    then (do
      type ← get_elem? packet read_ptr
      if type == 0 then some ([], read_ptr) else (do
        len ← get_elem? packet (read_ptr + 1)
        (if leb (read_ptr + 2 + len) packet_end
            then (do
              bytes ← take_exact len (drop (read_ptr + 2) packet)
              (items, end) ← rest (read_ptr + 2 + len)
              some (record { type = type; len = len; bytes = some bytes } ∷ items, end))
            else (do
              (items, end) ← rest (read_ptr + 2)
              some (record { type = type; len = len; bytes = none } ∷ items, end)))))
    else some ([], read_ptr)

-- The chunks of handle_sdes_packet(). The octet after the items is read even at the packet's end.
unfoldable pub read_chunks : ℕ → List ℕ → ℕ → ℕ → Option (List SdesChunk × ℕ)
unfolding read_ssrc read_items
read_chunks zero packet read_ptr packet_end = none
read_chunks (suc fuel) packet read_ptr packet_end =
    let rest = λ (p : ℕ). read_chunks fuel packet p packet_end in
    if leb (read_ptr + 4) packet_end
    then (do
      (ssrc, p) ← read_ssrc packet read_ptr
      (items, end) ← read_items (suc packet_end) packet p packet_end
      octet ← get_elem? packet end
      let next = if octet == 0 then end + (4 - end % 4) else end
      (chunks, last) ← rest next
      some (record { ssrc = ssrc; items = items } ∷ chunks, last))
    else some ([], read_ptr)

-- The name, the payload and its length in handle_app_packet(), after the ssrc. The length is a
-- size_t.
unfoldable pub read_app : List ℕ → ℕ → ℕ → Option (List ℕ × List ℕ × ℕ)
read_app packet read_ptr packet_end = do
  name ← take_exact 4 (drop read_ptr packet)
  let payload_len = sub64 packet_end (read_ptr + 4)
  payload ← take_exact payload_len (drop (read_ptr + 4) packet)
  some (name, payload, payload_len)

-- The ssrcs that handle_bye_packet() reads.
unfoldable pub read_bye : List ℕ → ℕ → ℕ → Option (List ℕ × ℕ)
unfolding read_ssrc
read_bye packet read_ptr zero = some ([], read_ptr)
read_bye packet read_ptr (suc sc) = do
  (ssrc, p) ← read_ssrc packet read_ptr
  (ssrcs, end) ← read_bye packet p sc
  some (ssrc ∷ ssrcs, end)
