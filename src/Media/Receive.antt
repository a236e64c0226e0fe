-- ===== src/Media/Receive.antt =====
-- src/formats/media.cc, packet_handler: fragments of a frame are kept until all of them are there.
use uvg_rtp.Prelude.{
  take, ℕ, ◌+◌, ◌-◌, ◌%◌, ◌^◌, Bool, not, ◌&&◌, none, some, List, [], ◌∷◌, ◌++◌, ltb, ◌==◌,
  if◌then◌else◌, flag_set, lookup, insert, insert_sorted, erase,
}
use uvg_rtp.Util.{RtpError, ok, pkt_ready, rce_fragment_generic}
use uvg_rtp.Frame.{RtpFrame, FramePtr, null, live, alloc_rtp_frame}

-- INVALID_SEQ.
abbrev pub invalid_seq : ℕ
invalid_seq = 0xffff_ffff

-- struct media_info.
pub record MediaInfo : Type 0 where
  pub s_seq : ℕ
  pub e_seq : ℕ
  pub npkts : ℕ
  pub size : ℕ
  pub fragments : List (ℕ × RtpFrame)

-- struct media_frame_info, the map `frames` by timestamp. (`dropped` is never used.)
abbrev pub Frames : Type 0
Frames = List (ℕ × MediaInfo)

-- The octets of a payload that `payload_len` counts.
abbrev pub used_payload : RtpFrame → List ℕ
used_payload f = take f.payload_len f.payload

-- The loop that copies the fragments behind one another.
unfoldable pub join_fragments : List (ℕ × RtpFrame) → List ℕ
join_fragments [] = []
join_fragments ((k, f) ∷ m) = used_payload f ++ join_fragments m

-- How many packets lie between the first and the last, in uint32_t arithmetic.
unfoldable pub expected_packets : MediaInfo → ℕ
expected_packets info =
    if ltb info.e_seq info.s_seq
    then (65535 + 2 ^ 32 - info.s_seq + info.e_seq + 2) % 2 ^ 32
    else (info.e_seq - info.s_seq + 1) % 2 ^ 32

-- The entry of a known timestamp with one more fragment.
unfoldable pub add_fragment : RtpFrame → MediaInfo → MediaInfo
add_fragment frame info =
    let seq = frame.header.seq in
    let key = if ltb seq info.s_seq then (seq + 0x10000) % 2 ^ 32 else seq in
    record info {
      npkts = (info.npkts + 1) % 2 ^ 64;
      size = (info.size + frame.payload_len) % 2 ^ 64;
      fragments = insert_sorted key frame info.fragments;
      e_seq = if frame.header.marker == 0 then info.e_seq else seq;
      s_seq =
          if frame.header.marker == 0 && seq == (info.s_seq + 2 ^ 32 - 1) % 2 ^ 32
          then seq
          else info.s_seq;
    }

-- Both ends are known, and as many packets arrived as lie between them.
unfoldable pub is_complete : MediaInfo → Bool
unfolding expected_packets
is_complete info =
    not (info.e_seq == invalid_seq)
    && (not (info.s_seq == invalid_seq) && expected_packets info == info.npkts)

-- The frame that is returned: `size` octets, of which the copies fill `payload`.
unfoldable pub joined_frame : RtpFrame → MediaInfo → RtpFrame
unfolding alloc_rtp_frame join_fragments
joined_frame frame info = record alloc_rtp_frame {
  header = frame.header;
  payload_len = info.size;
  payload = join_fragments info.fragments;
}

-- The first fragment of a timestamp; a lone packet with the marker bit is a whole frame.
unfoldable pub first_fragment : RtpFrame → Frames → RtpError × FramePtr × Frames
first_fragment frame frames =
    let seq = frame.header.seq in
    if frame.header.marker == 0
    then (
      ok,
      null,
      insert frame.header.timestamp
          (record {
            s_seq = seq;
            e_seq = invalid_seq;
            npkts = 1;
            size = frame.payload_len;
            fragments = insert_sorted seq frame [];
          })
          frames,
    )
    else (pkt_ready, live frame, frames)

unfoldable pub next_fragment : RtpFrame → MediaInfo → Frames → RtpError × FramePtr × Frames
next_fragment frame info frames =
    let info' = add_fragment frame info in
    if is_complete info'
    then (pkt_ready, live (joined_frame frame info'), erase frame.header.timestamp frames)
    else (ok, null, insert frame.header.timestamp info' frames)

-- The error code, `*out`, and the map.
unfoldable pub packet_handler : ℕ → RtpFrame → Frames → RtpError × FramePtr × Frames
packet_handler rce_flags frame frames =
    if flag_set rce_flags rce_fragment_generic
    then elim (lookup frame.header.timestamp frames) [
      | none ↦ first_fragment frame frames
      | some info ↦ next_fragment frame info frames
    ]
    else (pkt_ready, live frame, frames)
