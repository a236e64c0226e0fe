-- ===== src/MediaStream/Outcomes.antt =====
-- Packets that go through the reception flow of one stream, src/media_stream.cc and
-- src/reception_flow.cc: what comes of them.
use uvg_rtp.Prelude.{
  length, get_elem?, get_or, take, ◌>>=◌, be32, read32, flag_set, ℕ, zero, suc, ◌+◌, ◌/◌, ◌%◌, ◌≤◌,
  ◌<◌, ◌≡◌, refl, sym, ap, ◌∙◌, ◌⊎◌, ◌≢◌, inl, inr, true, false, Option, none, some, List, [], ◌∷◌,
  ◌++◌, arith,
}
use uvg_rtp.Util.{
  RtpError, generic_error, pkt_modified, pkt_not_handled, rce_srtp, rce_rtcp, rce_fragment_generic,
}
use uvg_rtp.Frame.{RtpFrame, FramePtr, null, freed, live}
use uvg_rtp.Rtp.Receive.{packet_handler}
use uvg_rtp.Media
use uvg_rtp.Srtp.Packets.{Crypto, computed_tag, carried_tag}
use uvg_rtp.Srtp.Rollover.{recv_packet_handler-wrong_tag}
use uvg_rtp.Rtcp.Participants.{Rtcp, recv_packet_handler_common}
use uvg_rtp.ReceptionFlow.Flow.{PacketHandler, Handlers, frame_hook, return_frame}
use uvg_rtp.ReceptionFlow.Dispatch.{
  is_modified, is_not_handled, is_null, select_handlers, call_handler, return_pointer, run_security,
  run_statistics, run_media, deliver, finish, process_rtp, process_packet,
}
use uvg_rtp.MediaStream.{
  Streams, rtp_handler, pointee, rtcp_common_handler, srtp_handler, media_handler,
}
use uvg_rtp.MediaStream.Receiving.{stream_flow, stream_handlers, stream_state, stream_flow_lem}

get_elem?_total : (xs : List ℕ) (i : ℕ) → i < length xs → (a : ℕ) × (get_elem? xs i ≡ some a)
get_elem?_total [] i h = absurd (omega arith)
get_elem?_total (x ∷ xs) zero h = (x, refl)
get_elem?_total (x ∷ xs) (suc i) h = get_elem?_total xs i (omega arith)

read32_total : (p : List ℕ) (i : ℕ) → i + 3 < length p → (v : ℕ) × (read32 p i ≡ some v)
unfolding read32
read32_total p i h =
    let (a, ea) = get_elem?_total p i (omega arith) in
    let (b, eb) = get_elem?_total p (i + 1) (omega arith) in
    let (c, ec) = get_elem?_total p (i + 2) (omega arith) in
    let (d, ed) = get_elem?_total p (i + 3) h in (be32 a b c d, rw (ea, eb, ec, ed) refl)

-- A packet of version 2 in a buffer of twelve octets or more.
abbrev pub IsMedia : List ℕ → Type 0
IsMedia buffer = (12 ≤ length buffer) × (get_or buffer 0 0 / 64 % 4 ≡ 2)

first_octet : (buffer : List ℕ) → 0 < length buffer → get_elem? buffer 0 ≡ some (get_or buffer 0 0)
first_octet [] h = absurd (omega arith)
first_octet (b ∷ buffer) h = refl

module _ (x : Crypto) (control : PacketHandler Streams) (rce_flags ssrc fuel size : ℕ)
    (buffer : List ℕ) (frames : List RtpFrame) (w : Streams) where
  -- With one stream, its handlers are for every packet.
  to_stream :
      (h : Handlers Streams)
      → IsMedia buffer
      → process_packet rce_flags fuel buffer size (stream_state ssrc h frames w)
        ≡ process_rtp h rce_flags fuel (take size buffer) (stream_state ssrc h frames w)
  unfolding process_packet select_handlers
  to_stream h (long, version) =
      let (a, ea) = read32_total buffer 8 (omega arith) in
      let (b, eb) = read32_total buffer 4 (omega arith) in
      let e0 = first_octet buffer (omega arith) in
      let (t, et) = get_elem?_total buffer 1 (omega arith) in rw (ea, eb, e0, et, version) refl

  -- The same from the flow that the stream installed its handlers in.
  from_state :
      (result : Option (List RtpFrame × Streams))
      → IsMedia buffer
      → process_rtp
          (stream_handlers x control rce_flags)
          rce_flags
          fuel
          (take size buffer)
          (stream_state ssrc (stream_handlers x control rce_flags) frames w)
        ≡ (result >>= (λ r. some (stream_state ssrc (stream_handlers x control rce_flags) r.0 r.1)))
      → process_packet rce_flags fuel buffer size (stream_flow x control rce_flags ssrc frames w)
        ≡ (result >>= (λ r. some (stream_flow x control rce_flags ssrc r.0 r.1)))
  from_state result media e =
      ap (process_packet rce_flags fuel buffer size)
        (stream_flow_lem x control rce_flags ssrc frames w)
      ∙ to_stream (stream_handlers x control rce_flags) media
      ∙ e
      ∙ sym (λ i. result >>= (λ r. some (stream_flow_lem x control rce_flags ssrc r.0 r.1 i)))

  dead_pointee :
      (h : Handlers Streams) (ret : RtpError) (out : FramePtr)
      → h.rtcp_common ≡ some rtcp_common_handler
      → flag_set rce_flags rce_rtcp ≡ true
      → pointee out ≡ none
      → run_statistics h rce_flags (take size buffer) (ret, out, w) ≡ none
  unfolding run_statistics call_handler rtcp_common_handler
  dead_pointee h ret out installed e dead = rw (e, installed, dead) refl

  -- With RCE_RTCP and without RCE_SRTP, a datagram of version 2 that the RTP handler refuses, with no
  -- frame or with one that it has freed, has no outcome: the statistics read through the pointer.
  pub process_packet_refused_rtcp :
      (ret : RtpError) (out : FramePtr)
      → IsMedia buffer
      → flag_set rce_flags rce_rtcp ≡ true
      → flag_set rce_flags rce_srtp ≡ false
      → packet_handler (take size buffer) ≡ some (ret, out)
      → pointee out ≡ none
      → process_packet rce_flags fuel buffer size (stream_flow x control rce_flags ssrc frames w)
        ≡ none
  unfolding process_rtp call_handler rtp_handler run_security run_statistics
  process_packet_refused_rtcp ret out media with_rtcp no_srtp refused dead =
      let dies =
        dead_pointee (stream_handlers x control rce_flags) ret out (rw with_rtcp refl) with_rtcp
          dead in
      from_state none media (rw (refused, no_srtp, dies) refl)

  -- Without RCE_RTCP and RCE_SRTP, a datagram of version 2 that the RTP handler refuses changes
  -- nothing.
  pub process_packet_refused :
      (ret : RtpError) (out : FramePtr)
      → IsMedia buffer
      → flag_set rce_flags rce_rtcp ≡ false
      → flag_set rce_flags rce_srtp ≡ false
      → packet_handler (take size buffer) ≡ some (ret, out)
      → ((ret ≡ pkt_not_handled) × (out ≡ null)) ⊎ ((ret ≡ generic_error) × (out ≡ freed))
      → process_packet rce_flags fuel buffer size (stream_flow x control rce_flags ssrc frames w)
        ≡ some (stream_flow x control rce_flags ssrc frames w)
  unfolding process_rtp call_handler rtp_handler run_security run_statistics finish run_media
      deliver is_null is_modified is_not_handled
  process_packet_refused ret out media no_rtcp no_srtp refused why =
      from_state (some (frames, w)) media (elim why [
        | inl (r, o) ↦ rw (refused, no_srtp, no_rtcp, r, o) refl
        | inr (r, o) ↦ rw (refused, no_srtp, no_rtcp, r) refl
      ])

  -- Without RCE_RTCP, RCE_SRTP and RCE_FRAGMENT_GENERIC, a datagram of version 2 of which the RTP
  -- handler makes a frame is one frame more for the user, behind the others.
  pub process_packet_accepted :
      (f : RtpFrame)
      → IsMedia buffer
      → flag_set rce_flags rce_rtcp ≡ false
      → flag_set rce_flags rce_srtp ≡ false
      → flag_set rce_flags rce_fragment_generic ≡ false
      → packet_handler (take size buffer) ≡ some (pkt_modified, live f)
      → process_packet rce_flags fuel buffer size (stream_flow x control rce_flags ssrc frames w)
        ≡ some (stream_flow x control rce_flags ssrc (frames ++ (f ∷ [])) w)
  unfolding process_rtp call_handler rtp_handler run_security run_statistics finish run_media
      deliver is_null is_modified is_not_handled media_handler pointee return_pointer return_frame
      frame_hook Media.Receive.packet_handler
  process_packet_accepted f media no_rtcp no_srtp whole read =
      from_state (some (frames ++ (f ∷ []), w)) media (rw (read, no_srtp, no_rtcp, whole) refl)

  -- With RCE_SRTP and RCE_RTCP, with authentication and without RCE_FRAGMENT_GENERIC: a frame that the
  -- RTP handler makes of a datagram of version 2, whose authentication tag is not the one that is computed
  -- of it, and that RTCP then counts as it is, goes to the user as the RTP handler has made it, behind the
  -- others; only what RTCP counts changes.
  pub process_packet_unauthenticated :
      (f : RtpFrame) (r : Rtcp)
      → IsMedia buffer
      → flag_set rce_flags rce_rtcp ≡ true
      → flag_set rce_flags rce_srtp ≡ true
      → flag_set rce_flags rce_fragment_generic ≡ false
      → packet_handler (take size buffer) ≡ some (pkt_modified, live f)
      → w.srtp.authenticate_rtp ≡ true
      → computed_tag x w.srtp f ≢ carried_tag x f
      → recv_packet_handler_common w.ntp_now w.elapsed f w.rtcp ≡ (pkt_not_handled, r)
      → process_packet rce_flags fuel buffer size (stream_flow x control rce_flags ssrc frames w)
        ≡ some (stream_flow x control rce_flags ssrc (frames ++ (f ∷ [])) (record w { rtcp = r }))
  unfolding process_rtp call_handler rtp_handler run_security run_statistics finish run_media
      deliver is_null is_modified is_not_handled media_handler pointee return_pointer return_frame
      frame_hook Media.Receive.packet_handler srtp_handler rtcp_common_handler
  process_packet_unauthenticated f r media with_rtcp with_srtp whole read checks wrong counted =
      let refused = recv_packet_handler-wrong_tag x w.srtp f checks wrong in
      from_state (some (frames ++ (f ∷ []), record w { rtcp = r })) media
        (rw (read, with_srtp, refused, with_rtcp, counted, whole) refl)
