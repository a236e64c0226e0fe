-- ===== src/Rtcp/Refused.antt =====
-- src/rtcp.cc: generate_report() of a session with SRTP.
use uvg_rtp.Prelude.{
  ◌==◌, ltb, if◌then◌else◌, Bool-cases, ◌>>=◌, flag_set, ℕ, ◌+◌, ◌%◌, ◌^◌, ◌<◌, ◌≡◌, refl, ap, ◌∙◌,
  inl, inr, Bool, true, false, Option, none, some, List, [], ◌∷◌, arith,
}
use uvg_rtp.Util.{RtpError, ok, generic_error, rce_srtp}
use uvg_rtp.Rtcp.Packets.{
  RtcpFrameType, sr, rr, get_rr_packet_size, get_sr_packet_size, construct_rtcp_header,
}
use uvg_rtp.Rtcp.Participants.{RtcpParticipant, Participants}
use uvg_rtp.Rtcp.Report.{
  write_report, in_buffer, start_clock, Reporter, ReportEnv, count_reports, sends_sr,
  size_of_compound_packet, write_start, apps_size, build_report, send_rtcp_packet_to_participants,
  generate_report,
}

count_reports-lt :
    (participants : Participants) (n : ℕ) → n < 256 → count_reports participants n < 256
unfolding count_reports
count_reports-lt [] n h = h
count_reports-lt ((ssrc, p) ∷ participants) n h =
    count_reports-lt participants (if p.stats.received_rtp_packet then (n + 1) % 256 else n)
      (next p.stats.received_rtp_packet n h)
  where
    next : (b : Bool) (n : ℕ) → n < 256 → (if b then (n + 1) % 256 else n) < 256
    next true n h = omega arith
    next false n h = h

-- With the index and the tag of SRTCP a report is no whole number of words.
construct_rtcp_header_srtp :
    (rce_flags n second : ℕ) (type : RtcpFrameType)
    → flag_set rce_flags rce_srtp ≡ true
    → n < 256
    → (construct_rtcp_header [] (get_rr_packet_size rce_flags n) second type ≡ (false, []))
      × (construct_rtcp_header [] (get_sr_packet_size rce_flags n) second type ≡ (false, []))
unfolding construct_rtcp_header get_rr_packet_size get_sr_packet_size
construct_rtcp_header_srtp rce_flags n second type srtp few =
    (rw srtp (ground arith), rw srtp (ground arith))

write_start_srtp :
    (e : ReportEnv) (r : Reporter) (n : ℕ)
    → flag_set r.rce_flags rce_srtp ≡ true
    → n < 256
    → write_start e r n ≡ (false, [])
unfolding write_start
write_start_srtp e r n srtp few = elim (Bool-cases (sends_sr r)) [
  | inl sends ↦ rw (sends, (construct_rtcp_header_srtp r.rce_flags n n sr srtp few).1) refl
  | inr receives ↦ rw (receives, (construct_rtcp_header_srtp r.rce_flags n n rr srtp few).0) refl
]

ltb-zero : (n : ℕ) → ltb n 0 ≡ false
ltb-zero n = ground arith

abbrev counted : Reporter → Reporter
counted r = record r { rtcp_pkt_sent_count = (r.rtcp_pkt_sent_count + 1) % 2 ^ 32 }

-- What changes of the state.
abbrev after_refusal : Reporter → ℕ → Reporter
after_refusal r clock_start = record r {
  rtcp_pkt_sent_count = (r.rtcp_pkt_sent_count + 1) % 2 ^ 32;
  clock_start = clock_start;
}

build_report_srtp :
    (e : ReportEnv) (r : Reporter)
    → flag_set r.rce_flags rce_srtp ≡ true
    → (clock_start : ℕ) × (build_report e r
        ≡ some (generic_error, after_refusal r clock_start, none))
unfolding build_report write_report start_clock in_buffer
build_report_srtp e r srtp =
    let n = count_reports r.control.rtcp.participants 0 in
    let size = size_of_compound_packet r n (apps_size e r) in
    elim (Bool-cases (size == 0)) [
      | inl nothing ↦ (r.clock_start, rw nothing refl)
      | inr something ↦ (
        (start_clock e (counted r)).clock_start,
        rw
            (
              something,
              write_start_srtp e (counted r) n srtp
                  (count_reports-lt r.control.rtcp.participants 0 (omega arith)),
              ltb-zero size,
            )
            refl,
      )
    ]

-- With RCE_SRTP no report is ever sent: with one participant or more, whatever there is to report, generate_report() fails and gives
-- the socket nothing; only the count of sent packets and `clock_start_` change.
pub generate_report_srtp :
    (e : ReportEnv) (encrypt : Option (List ℕ → RtpError × List ℕ))
    (sendto : Option (List ℕ → RtpError)) (r : Reporter) (p : ℕ × RtcpParticipant)
    (ps : Participants)
    → r.control.rtcp.participants ≡ p ∷ ps
    → flag_set r.rce_flags rce_srtp ≡ true
    → (clock_start : ℕ) × (generate_report e encrypt sendto r
        ≡ some (
          generic_error,
          record r {
            rtcp_pkt_sent_count = (r.rtcp_pkt_sent_count + 1) % 2 ^ 32;
            clock_start = clock_start;
          },
          none,
        ))
unfolding generate_report
generate_report_srtp e encrypt sendto r p ps others srtp =
    let (clock_start, built) = build_report_srtp e r srtp in
    (
      clock_start,
      ap
            (λ (l : Participants). elim l [
              | [] ↦ some (ok, r, none)
              | q ∷ qs ↦ (do
                (ret, r', packet) ← build_report e r
                elim packet [
                  | none ↦ some (ret, r', none)
                  | some frame ↦
                      (let (sent_ret, c, sent) =
                          send_rtcp_packet_to_participants encrypt sendto frame r'.control in
                        some (sent_ret, record r' { control = c }, sent))
                ])
            ])
            others
          ∙ rw built refl,
    )
