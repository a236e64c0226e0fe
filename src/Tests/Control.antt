-- ===== src/Tests/Control.antt =====
-- The theorems on control packets and on the statistics of the participants, at concrete inputs.
use uvg_rtp.Prelude.{ℕ, ◌≡◌, refl, arith, some, List, [], ◌∷◌, ◌++◌, length, lookup}
use uvg_rtp.Util.{ok, pkt_not_handled}
use uvg_rtp.Frame.{RtpFrame, alloc_rtp_frame}
use uvg_rtp.Rtcp.Packets.{construct_report_block}
use uvg_rtp.Rtcp.Read.{read_reports}
use uvg_rtp.Rtcp.RoundTrip.{
  Report, ReportFits, blocks_of, write_reports, read_reports-write_reports,
}
use uvg_rtp.Rtcp.Participants.{Rtcp, RtcpParticipant, zero_stats}
use uvg_rtp.Rtcp.Losses.{receive_frames}
use uvg_rtp.Rtcp.Loss.{lost_pkts-receive_frames}

abbrev report : Report
report = record {
  ssrc = 3735928559;
  fraction = 128;
  dropped_packets = 7;
  seq_cycles = 1;
  max_seq = 12;
  jitter = 5;
  lsr = 6;
  dlsr = 7;
}

abbrev two_reports : List Report
two_reports = report ∷ (report ∷ [])

report-ReportFits : ReportFits report
report-ReportFits = record {
  ssrc_fits = omega arith;
  fraction_fits = omega arith;
  dropped_fits = omega arith;
  cycles_fits = omega arith;
  max_fits = omega arith;
  jitter_fits = omega arith;
  lsr_fits = omega arith;
  dlsr_fits = omega arith;
}

-- Seven lost packets are read as five.
read_reports-write_reports_example :
    read_reports (write_reports (1 ∷ 2 ∷ []) two_reports ++ []) 2 50 2
    ≡ some (blocks_of two_reports, length (write_reports (1 ∷ 2 ∷ []) two_reports))
unfolding write_reports construct_report_block
read_reports-write_reports_example =
    read_reports-write_reports (1 ∷ 2 ∷ []) [] 50 two_reports
      (report-ReportFits, (report-ReportFits, tt)) (omega arith)

abbrev pub valid_sender : RtcpParticipant
valid_sender = record { probation = 0; stats = record zero_stats { max_seq = 65535; cycles = 3 } }

abbrev pub nobody : Rtcp
nobody = record {
  participants = [];
  initial_participants = [];
  ms_since_last_rep = [];
  clock_rate = 90000;
  num_receivers = 0;
  members = 1;
  senders = 0;
}

abbrev frame : ℕ → RtpFrame
frame seq = record alloc_rtp_frame {
  header = record alloc_rtp_frame.header { seq = seq; ssrc = 42 };
}

-- Two packets are skipped, of which one is counted.
lost_pkts-receive_frames_example :
    (r' : Rtcp) × (p : RtcpParticipant) × (receive_frames 1 2
        (frame 65530 ∷ frame 65531 ∷ frame 65532 ∷ frame 65533 ∷ frame 0 ∷ [])
        nobody
      ≡ (pkt_not_handled ∷ ok ∷ pkt_not_handled ∷ pkt_not_handled ∷ pkt_not_handled ∷ [], r'))
    × (lookup 42 r'.participants ≡ some p)
    × (p.stats.received_pkts ≡ 4)
    × (p.stats.lost_pkts ≡ 1)
unfolding lookup alloc_rtp_frame
lost_pkts-receive_frames_example =
    lost_pkts-receive_frames 1 2 (frame 65530) (frame 65531) (frame 65532)
      (frame 65533 ∷ frame 0 ∷ []) (0 ∷ 2 ∷ []) nobody refl (omega arith) refl refl refl refl
      (omega arith) (refl, refl, omega arith, (refl, refl, omega arith, tt)) (omega arith)
