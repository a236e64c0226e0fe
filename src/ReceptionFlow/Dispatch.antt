-- ===== src/ReceptionFlow/Dispatch.antt =====
-- src/reception_flow.cc, process_packet(): which handlers a packet goes to.
use uvg_rtp.Prelude.{
  leb, ◌==◌, if◌then◌else◌, get_elem?, take, ◌>>=◌, read32, flag_set, lookup, ℕ, zero, suc, ◌/◌,
  ◌%◌, Bool, true, false, ◌&&◌, ◌||◌, Option, none, some, List, [], ◌∷◌,
}
use uvg_rtp.Util.{
  RtpError, pkt_modified, pkt_not_handled, pkt_ready, multiple_pkts_ready, rce_srtp, rce_rtcp,
  rce_rtcp_mux,
}
use uvg_rtp.Frame.{FramePtr, null, freed, live}
use uvg_rtp.ReceptionFlow.Flow.{Seen, PacketHandler, Handlers, Flow, return_frame}

unfoldable pub is_modified : RtpError → Bool
is_modified pkt_modified = true
is_modified ret = false

unfoldable pub is_not_handled : RtpError → Bool
is_not_handled pkt_not_handled = true
is_not_handled ret = false

unfoldable pub is_null : FramePtr → Bool
is_null null = true
is_null freed = false
is_null (live f) = false

module _ {W : Type 0} where
  -- The handlers of a packet, and whether it was taken for a control packet. The entry of a map with
  -- one entry is for all packets.
  unfoldable pub select_handlers : Flow W → ℕ → ℕ → Option (Handlers W × Bool)
  select_handlers s rtcp_ssrc rtp_ssrc = elim s.packet_handlers [
    | [] ↦ none
    | (key, h) ∷ more ↦ elim more [
      | [] ↦ some (h, false)
      | other ∷ others ↦ elim (lookup rtcp_ssrc s.packet_handlers) [
        | some g ↦ some (g, true)
        | none ↦ elim (lookup rtp_ssrc s.packet_handlers) [ some g ↦ some (g, false) | none ↦ none ]
      ]
    ]
  ]

  -- A handler that is not installed changes nothing.
  unfoldable pub call_handler : Option (PacketHandler W) → ℕ → List ℕ → Seen W → Option (Seen W)
  call_handler none rce_flags packet seen = some seen
  call_handler (some f) rce_flags packet (ret, frame, w) = f rce_flags packet frame w

  -- `return_frame(frame)` of a pointer.
  unfoldable pub return_pointer : FramePtr → Flow W → Option (Flow W)
  return_pointer null s = none
  return_pointer freed s = none
  return_pointer (live f) s = some (return_frame f s)

  -- The loop over the getter; it has no value when the fuel is not enough.
  unfoldable pub return_all : (W → Seen W) → ℕ → Flow W → Option (Flow W)
  return_all getter zero s = none
  return_all getter (suc fuel) s =
      let got = getter s.streams in
      let rest = (return_pointer got.1 (record s { streams = got.2 })) >>= return_all getter fuel in
      elim got.0 [ pkt_ready ↦ rest | _ ↦ some (record s { streams = got.2 }) ]

  -- SRTP's handler, if it is enabled and the packet is a frame.
  unfoldable pub run_security : Handlers W → ℕ → List ℕ → Seen W → Option (Seen W)
  run_security h rce_flags packet seen =
      if flag_set rce_flags rce_srtp && is_modified seen.0
      then call_handler h.srtp rce_flags packet seen
      else some seen

  unfoldable pub run_statistics : Handlers W → ℕ → List ℕ → Seen W → Option (Seen W)
  run_statistics h rce_flags packet seen =
      if flag_set rce_flags rce_rtcp
      then call_handler h.rtcp_common rce_flags packet seen
      else some seen

  unfoldable pub run_media : Handlers W → ℕ → List ℕ → Seen W → Option (Seen W)
  run_media h rce_flags packet seen =
      if is_null seen.1 then some seen else call_handler h.media rce_flags packet seen

  -- What the handlers have made of the packet goes to the user.
  unfoldable pub deliver : Handlers W → ℕ → Seen W → Flow W → Option (Flow W)
  deliver h fuel (pkt_ready, frame, w) s = return_pointer frame (record s { streams = w })
  deliver h fuel (multiple_pkts_ready, frame, w) s = elim h.getter [
    | none ↦ some (record s { streams = w })
    | some getter ↦ return_all getter fuel (record s { streams = w })
  ]
  deliver h fuel (ret, frame, w) s = some (record s { streams = w })

  -- The media handler and what follows it, if the code says that the packet is a frame.
  unfoldable pub finish : Handlers W → ℕ → ℕ → List ℕ → Seen W → Flow W → Option (Flow W)
  finish h rce_flags fuel packet seen s =
      if is_modified seen.0 || is_not_handled seen.0
      then (run_media h rce_flags packet seen >>= (λ done. deliver h fuel done s))
      else some (record s { streams = seen.2 })

  -- The handlers of a packet of version 2.
  unfoldable pub process_rtp : Handlers W → ℕ → ℕ → List ℕ → Flow W → Option (Flow W)
  process_rtp h rce_flags fuel packet s = do
    read ← call_handler h.rtp rce_flags packet (pkt_modified, null, s.streams)
    plain ← run_security h rce_flags packet read
    counted ← run_statistics h rce_flags packet plain
    finish h rce_flags fuel packet counted s

  -- A handler of which only the effect on the streams counts.
  unfoldable pub notify : Option (PacketHandler W) → ℕ → List ℕ → Flow W → Option (Flow W)
  notify f rce_flags packet s = do
    seen ← call_handler f rce_flags packet (pkt_modified, null, s.streams)
    some (record s { streams = seen.2 })

  -- One packet, of `size` octets at the start of the buffer. The octets that the tests read are the
  -- buffer's, whatever the size.
  unfoldable pub process_packet : ℕ → ℕ → List ℕ → ℕ → Flow W → Option (Flow W)
  process_packet rce_flags fuel buffer size s = do
    rtp_ssrc ← read32 buffer 8
    rtcp_ssrc ← read32 buffer 4
    b0 ← get_elem? buffer 0
    pt ← get_elem? buffer 1
    let version = b0 / 64 % 4
    let packet = take size buffer
    elim (select_handlers s rtcp_ssrc rtp_ssrc) [
      | none ↦ some s
      | some (h, rtcp_pkt) ↦
          if rtcp_pkt && flag_set rce_flags rce_rtcp_mux
          then (if leb 200 pt && leb pt 204 then notify h.rtcp rce_flags packet s else some s)
          else (if (version == 0) && (rtcp_ssrc == 0x5a525450)
              then notify h.zrtp rce_flags packet s
              else (if version == 2 then process_rtp h rce_flags fuel packet s else some s))
    ]
