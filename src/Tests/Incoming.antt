-- ===== src/Tests/Incoming.antt =====
-- The theorems on incoming control packets, at concrete inputs.
use uvg_rtp.Prelude.{
  replicate, read16, read32, lookup, insert, erase, ℕ, ◌≡◌, refl, true, false, none, some, List, [],
  ◌∷◌, arith,
}
use uvg_rtp.Util.{ok}
use uvg_rtp.Rtcp.Packets.{construct_app_block}
use uvg_rtp.Rtcp.Read.{RtcpHeader, rtcp_length_in_bytes, read_rtcp_header, read_ssrc, read_bye}
use uvg_rtp.Rtcp.Participants.{is_participant}
use uvg_rtp.Rtcp.Incoming.{
  Control, update_rtcp_bandwidth, update_avg_rtcp_size, is_ok, handle_sender_report_packet,
  remove_participant, remove_participants, handle_bye_packet, app_packet,
}
use uvg_rtp.Rtcp.Compound.{
  handle_by_type, reset_timeout, after_handler, walk_packet, walk_packets, handle_incoming_packet,
}
use uvg_rtp.Rtcp.Capacity.{Capacity}
use uvg_rtp.Rtcp.Walk.{handle_incoming_packet-Capacity}
use uvg_rtp.Rtcp.Steps.{walk_packets_fuel}
use uvg_rtp.Rtcp.Handlers.{handle_sender_report_packet_full}
use uvg_rtp.Rtcp.AppTrip.{app_header, handle_incoming_packet-construct_app_block}
use uvg_rtp.Tests.Control.{nobody, valid_sender}

-- One participant, and a hook for APP packets.
abbrev pub control : Control
control = record {
  rtcp = record nobody { participants = (9, valid_sender) ∷ []; num_receivers = 1; members = 2 };
  last_frames = [];
  handed = [];
  rr_hook = false;
  sr_hook = false;
  sdes_hook = false;
  app_hook = true;
  fb_hook = false;
  rtcp_pkt_count = 0;
  rtcp_byte_count = 0;
  avg_rtcp_pkt_size = 0;
  avg_rtcp_size = 0;
}

-- The participant leaves.
abbrev bye : List ℕ
bye = 129 ∷ 203 ∷ 0 ∷ 1 ∷ 0 ∷ 0 ∷ 0 ∷ 9 ∷ []

abbrev after_bye : Control
after_bye = record control {
  rtcp = record nobody {
    participants = [];
    ms_since_last_rep = (0, 0) ∷ [];
    num_receivers = 1;
    members = 1;
  };
  rtcp_pkt_count = 1;
  rtcp_byte_count = 36;
  avg_rtcp_pkt_size = 36;
}

bye_result : handle_incoming_packet none bye control ≡ some (ok, after_bye)
unfolding handle_incoming_packet update_avg_rtcp_size update_rtcp_bandwidth walk_packets walk_packet
    read_rtcp_header read16 rtcp_length_in_bytes reset_timeout handle_by_type handle_bye_packet
    read_bye read_ssrc read32 remove_participants remove_participant is_participant lookup erase
    insert after_handler is_ok
bye_result = refl

handle_incoming_packet-Capacity_example : Capacity after_bye.rtcp
unfolding Capacity
handle_incoming_packet-Capacity_example =
    handle_incoming_packet-Capacity none bye control after_bye ok (omega arith, omega arith)
      bye_result

walk_packets_fuel_example : walk_packets 8 bye 0 8 0 control ≡ walk_packets 100 bye 0 8 0 control
walk_packets_fuel_example = walk_packets_fuel 8 100 bye 0 8 0 control (omega arith) (omega arith)

-- As many participants as are supported were counted, and one is left.
abbrev crowded : Control
crowded = record control { rtcp = record control.rtcp { num_receivers = 31 } }

abbrev report : List ℕ
report = 128 ∷ 200 ∷ 0 ∷ 6 ∷ 0 ∷ 0 ∷ 0 ∷ 7 ∷ replicate 20 1

abbrev report_header : RtcpHeader
report_header = record { version = 2; padding = 0; count = 0; pkt_type = 200; length = 6 }

handle_sender_report_packet_full_example :
    handle_sender_report_packet report 4 28 report_header crowded ≡ none
unfolding read_ssrc read32 lookup
handle_sender_report_packet_full_example =
    handle_sender_report_packet_full report 4 28 8 7 report_header crowded refl refl refl

handle_incoming_packet-construct_app_block_example :
    (bytes : List ℕ) × (c' : Control) × (len : ℕ) × (construct_app_block [] 3 9
        (65 ∷ 66 ∷ 67 ∷ 68 ∷ [])
        (1 ∷ 2 ∷ 3 ∷ 4 ∷ [])
        4
      ≡ some (true, bytes))
    × (handle_incoming_packet none bytes control ≡ some (ok, c'))
    × (c'.handed
        ≡ app_packet (record {
          header = app_header 3 len;
          ssrc = 9;
          name = 65 ∷ 66 ∷ 67 ∷ 68 ∷ [];
          payload_len = 4;
          payload = 1 ∷ 2 ∷ 3 ∷ 4 ∷ [];
        })
          ∷ [])
unfolding is_participant lookup
handle_incoming_packet-construct_app_block_example =
    handle_incoming_packet-construct_app_block 3 9 (65 ∷ 66 ∷ 67 ∷ 68 ∷ []) (1 ∷ 2 ∷ 3 ∷ 4 ∷ [])
      control (omega arith) (omega arith) refl refl (omega arith) refl refl
