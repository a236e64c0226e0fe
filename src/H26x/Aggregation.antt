-- ===== src/H26x/Aggregation.antt =====
-- src/formats/h264.cc, h265.cc, h266.cc and h26x.cc: aggregation packets, several NAL units in one
-- packet, each after its length.
use uvg_rtp.Prelude.{
  ℕ, zero, suc, ◌+◌, ◌*◌, ◌/◌, ◌%◌, Bool, true, false, not, Option, none, some, List, [], ◌∷◌, ◌++◌,
  ltb, leb, if◌then◌else◌, length, get_elem?, drop, ◌>>=◌, put16, read16, take_exact, flag_set,
}
use uvg_rtp.Util.{
  RtpError, ok, invalid_value, generic_error, multiple_pkts_ready, rce_no_h26x_prepend_sc,
}
use uvg_rtp.Frame.{RtpHeader, RtpFrame, alloc_rtp_frame}
use uvg_rtp.FrameQueue.{FrameQueue, Queued, enqueue_message_vec}
use uvg_rtp.H26x.Headers.{Codec, h264, h265, h266, get_payload_header_size}

-- The largest importance of the NAL units (bits 5 and 6 of their first octets).
unfoldable pub max_nri : List (List ℕ) → ℕ → Option ℕ
max_nri [] nri = some nri
max_nri (n ∷ nalus) nri = do
  n0 ← get_elem? n 0
  max_nri nalus (if ltb nri (n0 / 32 % 4) then n0 / 32 % 4 else nri)

unfoldable pub aggr_header : Codec → List (List ℕ) → Option (List ℕ)
unfolding max_nri
aggr_header h264 nalus = do nri ← max_nri nalus 0; some ((nri * 32 + 24) ∷ [])
aggr_header h265 nalus = some (96 ∷ (1 ∷ []))
aggr_header h266 nalus = some (56 ∷ (1 ∷ []))

-- `<= UINT16_MAX` for H.264, `< UINT16_MAX` for the others.
unfoldable pub fits_length : Codec → ℕ → Bool
fits_length h264 n = leb n 65535
fits_length h265 n = ltb n 65535
fits_length h266 n = ltb n 65535

-- The buffers of the packet after its header. A NAL unit that is too large is left out.
unfoldable pub aggr_units : Codec → List (List ℕ) → List (List ℕ)
unfolding fits_length
aggr_units c [] = []
aggr_units c (n ∷ nalus) =
    if fits_length c (length n)
    then put16 (length n) ∷ n ∷ aggr_units c nalus
    else aggr_units c nalus

unfoldable pub several_nalus : List (List ℕ) → Bool
several_nalus [] = false
several_nalus (n ∷ []) = false
several_nalus (n ∷ m ∷ ns) = true

-- finalize_aggregation_pkt(), with the NAL units that add_aggregate_packet() has kept.
unfoldable pub finalize_aggregation_pkt : Codec → List (List ℕ) → FrameQueue → Queued
unfolding aggr_units several_nalus
finalize_aggregation_pkt c nalus q =
    if several_nalus nalus
    then (do header ← aggr_header c nalus; enqueue_message_vec (header ∷ aggr_units c nalus) q)
    else some (invalid_value, q)

-- The loop of handle_aggregation_packet(): the octets from each NAL unit on, with its length. `size`
-- is the sum of the lengths so far, which is compared with `payload_len`. The octets behind that are
-- there: SRTP makes `payload_len` smaller than the payload. Each round goes on by two octets at least.
unfoldable pub find_nalus : ℕ → List ℕ → ℕ → ℕ → ℕ → Option (RtpError × List (ℕ × List ℕ))
find_nalus zero payload payload_len i size = none
find_nalus (suc fuel) payload payload_len i size =
    let rest = λ (j size' : ℕ). find_nalus fuel payload payload_len j size' in
    if ltb i payload_len
    then (do
      packet_size ← read16 payload i
      if leb (size + packet_size) payload_len
          then (do
            (ret, nalus) ← rest (i + (packet_size + 2)) (size + packet_size)
            some (ret, (packet_size, drop (i + 2) payload) ∷ nalus))
          else some (generic_error, []))
    else some (ok, [])

-- allocate_rtp_frame_with_startcode(): three octets for H.264, four for the others.
unfoldable pub start_code : Codec → List ℕ
start_code h264 = 0 ∷ (0 ∷ (1 ∷ []))
start_code h265 = 0 ∷ (0 ∷ (0 ∷ (1 ∷ [])))
start_code h266 = 0 ∷ (0 ∷ (0 ∷ (1 ∷ [])))

abbrev pub nalu_frame : Codec → Bool → RtpHeader → List ℕ → RtpFrame
nalu_frame c prepend header nalu =
    let payload = if prepend then start_code c ++ nalu else nalu in
    record alloc_rtp_frame { header = header; payload_len = length payload; payload = payload }

-- The second loop: the frames that are queued for the user. A copy behind the payload is `none`.
unfoldable pub queue_nalus : Codec → Bool → RtpHeader → List (ℕ × List ℕ) → Option (List RtpFrame)
queue_nalus c prepend header [] = some []
queue_nalus c prepend header ((n, from) ∷ nalus) = do
  nalu ← take_exact n from
  frames ← queue_nalus c prepend header nalus
  some (nalu_frame c prepend header nalu ∷ frames)

-- On an error the frame is left to the caller and nothing is queued.
unfoldable pub handle_aggregation_packet : Codec → ℕ → RtpFrame → Option (RtpError × List RtpFrame)
unfolding find_nalus queue_nalus
handle_aggregation_packet c rce_flags f = do
  (ret, nalus) ←
      find_nalus (suc f.payload_len) f.payload f.payload_len (get_payload_header_size c) 0
  elim ret [
    | ok ↦ (do
      frames ← queue_nalus c (not (flag_set rce_flags rce_no_h26x_prepend_sc)) f.header nalus
      some (multiple_pkts_ready, frames))
    | other ↦ some (other, [])
  ]
