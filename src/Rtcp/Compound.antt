-- ===== src/Rtcp/Compound.antt =====
-- src/rtcp.cc: handle_incoming_packet(), the walk over the packets of a compound packet.
use uvg_rtp.Prelude.{
  ltb, ◌==◌, if◌then◌else◌, length, ◌>>=◌, read32, insert, ℕ, zero, suc, ◌+◌, ◌-◌, not, ◌||◌,
  Option, none, some, List,
}
use uvg_rtp.Util.{RtpError, ok, invalid_value, not_supported}
use uvg_rtp.Rtcp.Read.{RtcpHeader, rtcp_length_in_bytes, read_rtcp_header}
use uvg_rtp.Rtcp.Incoming.{
  Control, update_rtcp_bandwidth, update_avg_rtcp_size, is_ok, handle_receiver_report_packet,
  handle_sender_report_packet, handle_sdes_packet, handle_bye_packet, handle_app_packet,
  handle_fb_packet,
}

-- The handler of a packet by its type.
unfoldable pub handle_by_type :
    List ℕ → ℕ → ℕ → RtcpHeader → ℕ → Control → Option (RtpError × Control)
handle_by_type buffer read_ptr packet_end header sender_ssrc c =
    let type = header.pkt_type in
    if type == 200
    then handle_sender_report_packet buffer read_ptr packet_end header c
    else if type == 201
    then handle_receiver_report_packet buffer read_ptr packet_end header c
    else if type == 202
    then handle_sdes_packet buffer read_ptr packet_end header sender_ssrc c
    else if type == 203
    then handle_bye_packet buffer read_ptr header c
    else if type == 204
    then handle_app_packet buffer read_ptr packet_end header c
    else if (type == 205) || (type == 206)
    then handle_fb_packet buffer read_ptr header c
    else some (invalid_value, c)

-- The timeout of the sender begins again.
unfoldable pub reset_timeout : ℕ → Control → Control
reset_timeout sender_ssrc c = record c {
  rtcp = record c.rtcp { ms_since_last_rep = insert sender_ssrc 0 c.rtcp.ms_since_last_rep };
}

-- What a round of the walk leads to: the end, or the octets of the packet that was handled.
pub data Walk : Type 0 where
  ended : RtpError → Control → Walk
  handled : ℕ → Control → Walk

unfoldable pub after_handler : ℕ → RtpError × Control → Walk
after_handler size (ret, c) = if is_ok ret then handled size c else ended ret c

-- One packet.
unfoldable pub walk_packet : List ℕ → ℕ → ℕ → ℕ → Control → Option Walk
walk_packet buffer read_ptr remaining sender_ssrc c =
    if ltb remaining 4 then some (ended invalid_value c) else (do
      (header, p) ← read_rtcp_header buffer read_ptr
      let size = rtcp_length_in_bytes header.length
      let c' = reset_timeout sender_ssrc c
      if not (header.version == 2)
          then some (ended invalid_value c)
          else if ltb remaining size
          then some (ended not_supported c)
          else if not (header.padding == 0)
          then some (ended invalid_value c)
          else if ltb 204 header.pkt_type || ltb header.pkt_type 200
          then some (ended invalid_value c')
          else (do
            done ← handle_by_type buffer p (p - 4 + size) header sender_ssrc c'
            some (after_handler size done)))

-- All packets. A round without fuel has no value.
unfoldable pub walk_packets : ℕ → List ℕ → ℕ → ℕ → ℕ → Control → Option (RtpError × Control)
walk_packets zero buffer read_ptr remaining sender_ssrc c =
    if remaining == 0 then some (ok, c) else none
walk_packets (suc fuel) buffer read_ptr remaining sender_ssrc c =
    let rest = walk_packets fuel buffer in
    if remaining == 0
    then some (ok, c)
    else (walk_packet buffer read_ptr remaining sender_ssrc c >>= (λ w. elim w [
      | ended ret c' ↦ some (ret, c')
      | handled size c' ↦ rest (read_ptr + size) (remaining - size) sender_ssrc c'
    ]))

unfoldable pub walk_decrypted : ℕ → ℕ → RtpError × List ℕ → Control → Option (RtpError × Control)
walk_decrypted size sender_ssrc (ret, buffer) c =
    if is_ok ret then walk_packets size buffer 0 size sender_ssrc c else some (ret, c)

-- `srtcp` stands for handle_rtcp_decryption(), if there is SRTCP: the buffer of the sender is decrypted
-- in place.
unfoldable pub handle_incoming_packet :
    Option (ℕ → List ℕ → RtpError × List ℕ) → List ℕ → Control → Option (RtpError × Control)
handle_incoming_packet srtcp buffer c =
    let size = length buffer in
    let c' = update_avg_rtcp_size size (update_rtcp_bandwidth size c) in
    if size == 0
    then some (invalid_value, c)
    else if ltb 8 size
    then (do
      sender_ssrc ← read32 buffer 4
      elim srtcp [
        | none ↦ walk_packets size buffer 0 size sender_ssrc c'
        | some decrypt ↦ walk_decrypted size sender_ssrc (decrypt sender_ssrc buffer) c'
      ])
    else walk_packets size buffer 0 size 0 c'
