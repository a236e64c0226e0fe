-- ===== src/MediaStream.antt =====
-- src/media_stream.cc: what a stream of a generic format installs in its reception flow. The threads,
-- the socket and the handlers for sending are left out.
pub mod Receiving
pub mod Outcomes
use uvg_rtp.Prelude.{
  ltb, leb, ◌==◌, if◌then◌else◌, ltb→lt, lt→ltb, leb→le, ==_iff, tests, Bool-cases, Option-cases,
  length, get_elem?, set, length-append, length-set, get_elem?-set_self, get_elem?-set_ne, get_or,
  take, drop, replicate, take-append-drop, length-take, length-drop, length-replicate, length-map,
  ◌>>=◌, be16, be32, read16, read32, put16, put32, take_exact, take_exact-append, drop-append,
  take_exact_total, take_exact_short, put16_lem, put32_lem, read16-put16, read32-put32, sub64,
  get_elem?-skip, get_elem?-start, drop-skip, read16-skip, read32-skip, read32-start, flag_set,
  IsByte, IsU16, IsU32, lookup, insert, erase, insert_sorted, lookup-insert, lookup-erase,
  lookup-insert_self, KeysBelow, insert_sorted-append, insert-insert, erase_absent, erase-insert,
  bit_or_disjoint, bit_xor_twice, bit_xor_cancel, bit_xor_comm, bit_xor_middle, bit_and_low,
  bit_and_fffffd, ℕ, zero, suc, ◌+◌, ◌-◌, ◌*◌, ◌/◌, ◌%◌, ◌^◌, ◌≤◌, ◌<◌, bit_and, bit_or, bit_xor,
  ◌≡◌, refl, sym, ap, ◌∙◌, ◌≢◌, ◌↔◌, ◌⊎◌, inl, inr, Bool, true, false, not, ◌&&◌, ◌||◌, Option,
  none, some, List, [], ◌∷◌, ◌++◌, map, append-nil, append_assoc, arith,
}
use uvg_rtp.Util.{RtpError, rce_srtp, rce_rtcp, rce_rtcp_mux}
use uvg_rtp.Frame.{RtpHeader, ExtHeader, RtpFrame, alloc_rtp_frame, FramePtr, null, freed, live}
use uvg_rtp.Rtp
use uvg_rtp.Media
use uvg_rtp.Media.Receive.{Frames}
use uvg_rtp.Srtp.Base.{Srtp}
use uvg_rtp.Srtp.Packets.{Crypto, recv_packet_handler}
use uvg_rtp.Rtcp.Participants.{Rtcp, recv_packet_handler_common}
use uvg_rtp.ReceptionFlow.Flow.{
  Seen, PacketHandler, Handlers, Flow, insert_new, move_key, no_handlers, new_flow, clear_frames,
  install_receive_hook, handlers_at, set_handler, install_handler, install_getter, remove_handlers,
  clear_stream_from_flow, update_remote_ssrc, frame_hook, return_frame, front, front_of, waits,
  pull_frame, pull_frame_of, pull_frame_timeout, pull_frame_of_timeout,
}

-- What the handlers of a stream work on. The clock's readings are the two last.
pub record Streams : Type 0 where
  pub rtcp : Rtcp
  pub srtp : Srtp
  pub fragments : Frames
  pub ntp_now : ℕ
  pub elapsed : ℕ

unfoldable pub rtp_handler : PacketHandler Streams
rtp_handler rce_flags packet frame w = do
  (ret, out) ← Rtp.Receive.packet_handler packet
  some (ret, out, w)

-- The frame that a pointer points to.
unfoldable pub pointee : FramePtr → Option RtpFrame
pointee null = none
pointee freed = none
pointee (live f) = some f

unfoldable pub rtcp_common_handler : PacketHandler Streams
rtcp_common_handler rce_flags packet frame w = do
  f ← pointee frame
  let (ret, r) = recv_packet_handler_common w.ntp_now w.elapsed f w.rtcp
  some (ret, live f, record w { rtcp = r })

unfoldable pub srtp_handler : Crypto → PacketHandler Streams
srtp_handler x rce_flags packet frame w = do
  f ← pointee frame
  let (ret, c, f') = recv_packet_handler x w.srtp f
  some (ret, live f', record w { srtp = c })

unfoldable pub media_handler : PacketHandler Streams
media_handler rce_flags packet frame w = do
  f ← pointee frame
  let (ret, out, m) = Media.Receive.packet_handler rce_flags f w.fragments
  some (ret, out, record w { fragments = m })

-- create_media() for the formats without a handler of their own.
unfoldable pub create_media : ℕ → Flow Streams → Flow Streams
create_media remote_ssrc s = (install_handler 5 remote_ssrc media_handler s).1

-- `control` stands for rtcp::handle_incoming_packet.
unfoldable pub install_packet_handlers :
    Crypto → PacketHandler Streams → ℕ → ℕ → Flow Streams → Flow Streams
install_packet_handlers x control rce_flags remote_ssrc s =
    let s1 = (install_handler 1 remote_ssrc rtp_handler s).1 in
    let s2 =
      if flag_set rce_flags rce_rtcp
      then (install_handler 6 remote_ssrc rtcp_common_handler s1).1
      else s1 in
    let s3 =
      if flag_set rce_flags rce_rtcp_mux
      then (install_handler 2 remote_ssrc control s2).1
      else s2 in
    if flag_set rce_flags rce_srtp
    then (install_handler 4 remote_ssrc (srtp_handler x) s3).1
    else s3
