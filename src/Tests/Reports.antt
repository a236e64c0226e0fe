-- ===== src/Tests/Reports.antt =====
-- The theorems on the reports that are sent, at concrete inputs.
use uvg_rtp.Prelude.{◌≡◌, refl, none, some, List, [], ℕ, true, false, flag_set}
use uvg_rtp.Util.{ok, generic_error, rce_srtp}
use uvg_rtp.Rtcp.Report.{Reporter, ReportEnv, generate_report, receiver}
use uvg_rtp.Rtcp.Refused.{generate_report_srtp}
use uvg_rtp.Prelude.{◌∷◌, arith, ◌⊎◌, ◌≤◌, length, if◌then◌else◌, Bool}
use uvg_rtp.Rtcp.Packets.{SdesItem, item_lengths}
use uvg_rtp.Rtcp.Report.{
  build_report, count_reports, size_of_compound_packet, apps_size, OutgoingApp, first_packets,
}
use uvg_rtp.Rtcp.RestSizes.{Writable}
use uvg_rtp.Rtcp.Room.{build_report_fills}
use uvg_rtp.Tests.Control.{valid_sender}
use uvg_rtp.Tests.Incoming.{control}

abbrev env : ReportEnv
env = record {
  clock_now = 0;
  ntp_now = 0;
  rtp_ts = 0;
  jitter = λ (ssrc : ℕ). 0;
  delay = λ (ssrc : ℕ). 0;
  hooked = none;
}

-- A receiver with SRTP, which has heard of one participant.
abbrev secure_receiver : Reporter
secure_receiver = record {
  control = control;
  our_role = receiver;
  our_stats = record { sent_pkts = 0; sent_bytes = 0; sent_rtp_packet = false };
  our_items = [];
  app_packets = [];
  bye_ssrcs = [];
  rtcp_pkt_sent_count = 4;
  ssrc = 7;
  rce_flags = rce_srtp;
  clock_start = 0;
}

secure_flags : flag_set rce_srtp rce_srtp ≡ true
unfolding flag_set
secure_flags = refl

generate_report_srtp_example :
    (clock_start : ℕ) × (generate_report env none (some (λ (frame : List ℕ). ok)) secure_receiver
      ≡ some (
        generic_error,
        record secure_receiver { rtcp_pkt_sent_count = 5; clock_start = clock_start },
        none,
      ))
generate_report_srtp_example =
    generate_report_srtp env none (some (λ (frame : List ℕ). ok)) secure_receiver (9, valid_sender)
      [] refl secure_flags

-- The name of the host, an item that is no CNAME, and one that is invalid.
abbrev cname : SdesItem
cname = record { type = 1; len = 2; bytes = some (97 ∷ 98 ∷ []) }

abbrev tool : SdesItem
tool = record { type = 6; len = 3; bytes = some (120 ∷ 121 ∷ 122 ∷ []) }

abbrev blank : SdesItem
blank = record { type = 0; len = 0; bytes = some [] }

-- Without SRTP, with an APP packet of four octets and one SSRC that leaves.
abbrev packet : OutgoingApp
packet = record {
  name = 65 ∷ 66 ∷ 67 ∷ 68 ∷ [];
  subtype = 1;
  payload_len = 4;
  payload = 1 ∷ 2 ∷ 3 ∷ 4 ∷ [];
}

abbrev plain_receiver : Reporter
plain_receiver = record secure_receiver {
  rce_flags = 0;
  our_items = cname ∷ (tool ∷ []);
  bye_ssrcs = 7 ∷ [];
  app_packets = (packet ∷ []) ∷ [];
}

plain_receiver-Writable : Writable env plain_receiver
unfolding flag_set item_lengths first_packets
plain_receiver-Writable = record {
  plain = refl;
  few = omega arith;
  items = ((97 ∷ 98 ∷ [], refl, omega arith), ((120 ∷ 121 ∷ 122 ∷ [], refl, omega arith), tt));
  items_fit = omega arith;
  apps = ((omega arith, omega arith), tt);
  apps_fit = omega arith;
  byes_fit = omega arith;
}

build_report_fills_example :
    (done : Bool) × (frame : List ℕ) × (r' : Reporter) × (build_report env plain_receiver
      ≡ some (if done then (ok, r', some frame) else (generic_error, r', none)))
    × (length frame
        ≤ size_of_compound_packet plain_receiver
            (count_reports plain_receiver.control.rtcp.participants 0)
            (apps_size env plain_receiver))
    × ((done ≡ false)
        ⊎ (length frame
            ≡ size_of_compound_packet plain_receiver
                (count_reports plain_receiver.control.rtcp.participants 0)
                (apps_size env plain_receiver)))
build_report_fills_example = build_report_fills env plain_receiver plain_receiver-Writable
