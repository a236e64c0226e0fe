-- ===== src/Rtcp/Packets.antt =====
-- src/rtcp_packets.hh and src/rtcp_packets.cc: how control packets are written. The frame is the
-- list of the octets before `ptr`, so `ptr` is its length; the caller has set the rest to zero.
use uvg_rtp.Prelude.{
  ℕ, ◌+◌, ◌-◌, ◌*◌, ◌/◌, ◌%◌, ◌^◌, Bool, true, false, ◌||◌, not, Option, some, List, [], ◌∷◌, ◌++◌,
  ◌==◌, ltb, if◌then◌else◌, length, replicate, flag_set, ◌>>=◌, put16, put32, take_exact, bit_or,
}
use uvg_rtp.Util.{rce_srtp}

-- RTCP_FRAME_TYPE.
pub data RtcpFrameType : Type 0 where
  sr rr sdes bye app rtpfb psfb : RtcpFrameType

unfoldable pub frame_type_number : RtcpFrameType → ℕ
frame_type_number sr = 200
frame_type_number rr = 201
frame_type_number sdes = 202
frame_type_number bye = 203
frame_type_number app = 204
frame_type_number rtpfb = 205
frame_type_number psfb = 206

-- struct rtcp_sdes_item. The data pointer is null when the reader found no room for the data.
pub record SdesItem : Type 0 where
  pub type : ℕ
  pub len : ℕ
  pub bytes : Option (List ℕ)

pub record SdesChunk : Type 0 where
  pub ssrc : ℕ
  pub items : List SdesItem

-- UVG_SRTCP_INDEX_LENGTH + UVG_AUTH_TAG_LENGTH is 14.
unfoldable pub get_rr_packet_size : ℕ → ℕ → ℕ
get_rr_packet_size rce_flags reports =
    let size = (4 + 4 + 24 * reports) % 2 ^ 32 in
    if flag_set rce_flags rce_srtp then (size + 14) % 2 ^ 32 else size

unfoldable pub get_sr_packet_size : ℕ → ℕ → ℕ
get_sr_packet_size rce_flags reports = (get_rr_packet_size rce_flags reports + 20) % 2 ^ 32

unfoldable pub get_app_packet_size : ℕ → ℕ
get_app_packet_size payload_len = (4 + 4 + 4 + payload_len) % 2 ^ 32

unfoldable pub item_lengths : List SdesItem → ℕ
item_lengths [] = 0
item_lengths (i ∷ items) = i.len + item_lengths items

unfoldable pub get_sdes_packet_size : List SdesItem → ℕ
unfolding item_lengths
get_sdes_packet_size items =
    let frame_size = (4 + 4 + length items * 2 + item_lengths items) % 2 ^ 32 in
    (frame_size + (4 - frame_size % 4)) % 2 ^ 32

unfoldable pub get_bye_packet_size : List ℕ → ℕ
get_bye_packet_size ssrcs = (4 + length ssrcs * 4) % 2 ^ 32

-- False leaves the frame as it is. The length is in words, less one.
unfoldable pub construct_rtcp_header : List ℕ → ℕ → ℕ → RtcpFrameType → Bool × List ℕ
construct_rtcp_header frame packet_size second_field frame_type =
    if ltb 65535 packet_size || not (packet_size % 4 == 0) then (false, frame) else (
      true,
      frame
          ++ ((bit_or 128 second_field % 256)
              ∷ (frame_type_number frame_type
                  ∷ put16 ((packet_size % 2 ^ 16 / 4 + 2 ^ 64 - 1) % 2 ^ 16))),
    )

unfoldable pub construct_ssrc : List ℕ → ℕ → List ℕ
construct_ssrc frame ssrc = frame ++ put32 ssrc

unfoldable pub construct_sender_info : List ℕ → ℕ → ℕ → ℕ → ℕ → List ℕ
construct_sender_info frame ntp_ts rtp_ts sent_packets sent_bytes =
    frame
    ++ (put32 (ntp_ts / 2 ^ 32 % 2 ^ 32)
        ++ (put32 (ntp_ts % 2 ^ 32)
            ++ (put32 (rtp_ts % 2 ^ 32) ++ (put32 sent_packets ++ put32 sent_bytes))))

unfoldable pub construct_report_block : List ℕ → ℕ → ℕ → ℕ → ℕ → ℕ → ℕ → ℕ → ℕ → List ℕ
construct_report_block frame ssrc fraction dropped_packets seq_cycles max_seq jitter lsr dlsr =
    frame
    ++ (put32 ssrc
        ++ (put32 (bit_or (fraction * 2 ^ 24) dropped_packets)
            ++ (put32 (bit_or (seq_cycles * 2 ^ 16) max_seq)
                ++ (put32 jitter ++ (put32 lsr ++ put32 dlsr)))))

-- `none` is a read behind the name or the payload.
unfoldable pub construct_app_packet : List ℕ → List ℕ → List ℕ → ℕ → Option (List ℕ)
construct_app_packet frame name payload payload_len = do
  n ← take_exact 4 name
  p ← take_exact payload_len payload
  some (frame ++ (n ++ p))

-- The items after the ssrc, and whether one of them is a CNAME. A null data pointer with a length
-- is read.
unfoldable pub construct_items : List ℕ → Bool → List SdesItem → Option (Bool × List ℕ)
construct_items frame have_cname [] = some (have_cname, frame)
construct_items frame have_cname (i ∷ items) = do
  bytes ← i.bytes
  copied ← take_exact i.len bytes
  construct_items (frame ++ (i.type ∷ (i.len ∷ copied))) (have_cname || i.type == 1) items

unfoldable pub construct_sdes_chunk : List ℕ → SdesChunk → Option (Bool × List ℕ)
unfolding construct_ssrc construct_items
construct_sdes_chunk frame chunk = do
  (have_cname, written) ← construct_items (construct_ssrc frame chunk.ssrc) false chunk.items
  some (have_cname, written ++ replicate (4 - length written % 4) 0)

unfoldable pub construct_bye_packet : List ℕ → List ℕ → List ℕ
construct_bye_packet frame [] = frame
construct_bye_packet frame (ssrc ∷ ssrcs) = construct_bye_packet (frame ++ put32 ssrc) ssrcs

-- `&&` stops at a header that is refused.
unfoldable pub construct_app_block : List ℕ → ℕ → ℕ → List ℕ → List ℕ → ℕ → Option (Bool × List ℕ)
unfolding construct_ssrc
construct_app_block frame sec_field ssrc name payload payload_len =
    let packet_size = get_app_packet_size (payload_len % 2 ^ 32) in
    let (fits, written) = construct_rtcp_header frame packet_size sec_field app in
    if fits
    then (do
      whole ← construct_app_packet (construct_ssrc written ssrc) name payload payload_len
      some (true, whole))
    else some (false, written)
