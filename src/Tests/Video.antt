-- ===== src/Tests/Video.antt =====
-- The theorems on H.264, H.265 and H.266 packets, at concrete inputs.
use uvg_rtp.Prelude.{ℕ, ◌≡◌, refl, arith, not, none, some, List, [], ◌∷◌, ◌++◌, flag_set}
use uvg_rtp.Util.{multiple_pkts_ready}
use uvg_rtp.Frame.{RtpFrame, alloc_rtp_frame}
use uvg_rtp.H26x.Headers.{
  h264, h265, ft_start, ft_middle, ft_end, get_nal_type, fu_payload_header, initialize_fu_headers,
  get_payload_header_size,
}
use uvg_rtp.H26x.HeaderLaws.{ReadAs, fu_headers_lem}
use uvg_rtp.H26x.Aggregation.{aggr_units, fits_length, handle_aggregation_packet}
use uvg_rtp.H26x.AggregationLaws.{
  nalu_frames, handle_aggregation_packet-aggr_units, handle_aggregation_packet_overrun,
}

-- A slice of layer 33: the layer comes back as 1.
fu_headers_lem_example :
    (header : List ℕ) × (t first middle last : ℕ) × (fu_payload_header h265 (39 ∷ 9 ∷ 200 ∷ [])
      ≡ some header)
    × (get_nal_type h265 (39 ∷ 9 ∷ 200 ∷ []) ≡ some t)
    × (initialize_fu_headers t ≡ (first, middle, last))
    × ReadAs h265 (header ++ (first ∷ 200 ∷ [])) ft_start (38 ∷ 9 ∷ [])
    × ReadAs h265 (header ++ (middle ∷ 200 ∷ [])) ft_middle (38 ∷ 9 ∷ [])
    × ReadAs h265 (header ++ (last ∷ 200 ∷ [])) ft_end (38 ∷ 9 ∷ [])
fu_headers_lem_example =
    fu_headers_lem h265 39 9 (200 ∷ []) (200 ∷ []) (omega arith) (omega arith) tt

abbrev aggregated : RtpFrame
aggregated = record alloc_rtp_frame {
  payload_len = 8;
  payload = 24 ∷ (0 ∷ 2 ∷ 103 ∷ 1 ∷ 0 ∷ 1 ∷ 104 ∷ 7 ∷ 7 ∷ []);
}

handle_aggregation_packet-aggr_units_example :
    handle_aggregation_packet h264 0 aggregated
    ≡ some (
      multiple_pkts_ready,
      nalu_frames h264
          (not (flag_set 0 64))
          alloc_rtp_frame.header
          ((103 ∷ 1 ∷ []) ∷ (104 ∷ []) ∷ []),
    )
unfolding get_payload_header_size aggr_units fits_length
handle_aggregation_packet-aggr_units_example =
    handle_aggregation_packet-aggr_units h264 0 aggregated (24 ∷ [])
      ((103 ∷ 1 ∷ []) ∷ (104 ∷ []) ∷ []) (7 ∷ 7 ∷ []) (omega arith, (omega arith, tt)) refl refl
      refl

abbrev cut_short : RtpFrame
cut_short = record alloc_rtp_frame { payload_len = 5; payload = 24 ∷ (0 ∷ 4 ∷ 103 ∷ 1 ∷ []) }

handle_aggregation_packet_overrun_example : handle_aggregation_packet h264 0 cut_short ≡ none
unfolding get_payload_header_size
handle_aggregation_packet_overrun_example =
    handle_aggregation_packet_overrun h264 0 4 cut_short (24 ∷ []) (103 ∷ 1 ∷ []) refl (omega arith)
      (omega arith) (omega arith) (omega arith) (omega arith) refl
