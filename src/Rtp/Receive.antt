-- ===== src/Rtp/Receive.antt =====
-- src/rtp.cc, packet_handler: an RTP packet is taken apart. `none` is a read past the datagram.
-- After `*out` was deallocated it still points to the old frame, which is `freed`.
use uvg_rtp.Prelude.{
  ℕ, zero, suc, ◌+◌, ◌-◌, ◌*◌, ◌/◌, ◌%◌, ◌^◌, not, ◌||◌, Option, some, List, [], ◌∷◌, ltb, leb,
  ◌==◌, if◌then◌else◌, length, get_elem?, drop, ◌>>=◌, be32, read16, read32, take_exact, sub64,
}
use uvg_rtp.Util.{RtpError, pkt_not_handled, pkt_modified, generic_error}
use uvg_rtp.Frame.{RtpHeader, RtpFrame, FramePtr, null, freed, live, alloc_rtp_frame}

-- What the handler returns, and `*out`.
abbrev pub Handled : Type 0
Handled = Option (RtpError × FramePtr)

-- The bit fields of the first two octets, then the fields in network byte order.
unfoldable pub read_header : List ℕ → Option RtpHeader
unfolding read16 read32
read_header ptr = do
  b0 ← get_elem? ptr 0
  b1 ← get_elem? ptr 1
  seq ← read16 ptr 2
  timestamp ← read32 ptr 4
  ssrc ← read32 ptr 8
  some (record {
    version = b0 / 64 % 4;
    padding = b0 / 32 % 2;
    ext = b0 / 16 % 2;
    cc = b0 % 16;
    marker = if leb 128 b1 then 1 else 0;
    payload = b1 % 128;
    seq = seq;
    timestamp = timestamp;
    ssrc = ssrc;
  })

-- `*(uint32_t *)ptr` on a little-endian host: the entries keep their bytes as they arrived.
unfoldable pub host32 : List ℕ → Option ℕ
host32 ptr = do
  a ← get_elem? ptr 0
  b ← get_elem? ptr 1
  c ← get_elem? ptr 2
  d ← get_elem? ptr 3
  some (be32 d c b a)

-- The loop over the CSRC entries: the entries, and the pointer behind them.
unfoldable pub read_csrc : ℕ → List ℕ → Option (List ℕ × List ℕ)
unfolding host32
read_csrc zero ptr = some ([], ptr)
read_csrc (suc n) ptr = do
  entry ← host32 ptr
  (rest, ptr') ← read_csrc n (drop 4 ptr)
  some (entry ∷ rest, ptr')

-- The header extension. `ext->len` is a uint16_t.
unfoldable pub read_ext : RtpFrame → List ℕ → Option (RtpFrame × List ℕ)
unfolding read16 sub64
read_ext frame ptr = if frame.header.ext == 0 then some (frame, ptr) else do
  type ← read16 ptr 0
  words ← read16 ptr 2
  let len = words * 4 % 65536
  bytes ← take_exact len (drop 4 ptr)
  some (
    record frame {
      ext = some (record { type = type; len = len; bytes = bytes });
      payload_len = sub64 frame.payload_len (4 + len);
    },
    drop len (drop 4 ptr),
  )

-- The payload is copied once the padding is known.
unfoldable pub copy_payload : List ℕ → RtpFrame → List ℕ → Handled
copy_payload packet frame ptr = do
  payload ← take_exact frame.payload_len ptr
  some (pkt_modified, live (record frame { payload = payload; dgram = packet }))

-- The last octet of the datagram counts the padding.
unfoldable pub read_padding : List ℕ → RtpFrame → List ℕ → Handled
unfolding copy_payload sub64
read_padding packet frame ptr =
    if frame.header.padding == 0 then copy_payload packet frame ptr else do
      padding_len ← get_elem? packet (length packet - 1)
      if padding_len == 0 || leb frame.payload_len padding_len
          then some (generic_error, freed)
          else copy_payload packet
              (record frame {
                payload_len = sub64 frame.payload_len padding_len;
                padding_len = padding_len;
              })
              ptr

-- From the extension on.
unfoldable pub read_tail : List ℕ → RtpFrame → List ℕ → Handled
read_tail packet frame ptr = do (frame', ptr') ← read_ext frame ptr; read_padding packet frame' ptr'

-- From the CSRC entries on. The difference is a size_t that is read as a signed number.
unfoldable pub read_body : List ℕ → RtpFrame → List ℕ → Handled
unfolding sub64
read_body packet frame ptr =
    if frame.header.cc == 0
    then read_tail packet frame ptr
    else let left = sub64 frame.payload_len (frame.header.cc * 4) in
      if leb (2 ^ 63) left then some (generic_error, freed) else do
        (csrc, ptr') ← read_csrc frame.header.cc ptr
        read_tail packet (record frame { csrc = csrc; payload_len = left }) ptr'

unfoldable pub packet_handler : List ℕ → Handled
unfolding alloc_rtp_frame
packet_handler packet = if ltb (length packet) 12 then some (pkt_not_handled, null) else do
  b0 ← get_elem? packet 0
  if not (b0 / 64 % 4 == 2) then some (pkt_not_handled, null) else do
    header ← read_header packet
    read_body packet (record alloc_rtp_frame { header = header; payload_len = length packet - 12 })
        (drop 12 packet)
