-- ===== src/Rtcp/ReportSizes.antt =====
-- src/rtcp.cc: how many octets the parts of generate_report() write.
use uvg_rtp.Prelude.{
  ltb, if◌then◌else◌, Bool-cases, length, length-append, put16, put32, flag_set, ℕ, suc, ◌+◌, ◌-◌,
  ◌*◌, ◌/◌, ◌%◌, ◌^◌, ◌≤◌, ◌<◌, bit_or, ◌≡◌, refl, ap, ◌∙◌, inl, inr, Bool, true, false, List, [],
  ◌∷◌, ◌++◌, arith,
}
use uvg_rtp.Prelude.{put32, put16}
use uvg_rtp.Util.{rce_srtp}
use uvg_rtp.Rtcp.Packets.{
  RtcpFrameType, frame_type_number, get_rr_packet_size, get_sr_packet_size, construct_rtcp_header,
  construct_ssrc, construct_sender_info, construct_report_block, sr, rr,
}
use uvg_rtp.Rtcp.Participants.{ReceiverStatistics, Participants}
use uvg_rtp.Rtcp.Report.{
  Reporter, ReportEnv, count_reports, sends_sr, write_start, write_block, write_blocks,
}

-- The participants that are reported.
unfoldable pub news : Participants → ℕ
news [] = 0
news ((ssrc, p) ∷ participants) =
    let rest = news participants in if p.stats.received_rtp_packet then suc rest else rest

pub count_reports-news :
    (participants : Participants) (n : ℕ)
    → n + length participants < 256
    → count_reports participants n ≡ n + news participants
unfolding count_reports news
count_reports-news [] n few = omega arith
count_reports-news ((ssrc, p) ∷ participants) n few =
    elim (Bool-cases p.stats.received_rtp_packet) [
      | inl heard ↦
          (let here : (n + 1) % 256 ≡ n + 1 = omega arith in
            rw heard (
              ap (count_reports participants) here
              ∙ count_reports-news participants (n + 1) (omega arith)
              ∙ omega arith))
      | inr silent ↦ rw silent (count_reports-news participants n (omega arith))
    ]

write_block-octets :
    (e : ReportEnv) (frame : List ℕ) (ssrc : ℕ) (s : ReceiverStatistics)
    → length (write_block e frame ssrc s) ≡ length frame + 24
unfolding write_block construct_report_block
write_block-octets e frame ssrc s = length-append frame _

pub write_blocks-octets :
    (e : ReportEnv) (frame : List ℕ) (participants : Participants)
    → length (write_blocks e frame participants).0 ≡ length frame + 24 * news participants
unfolding write_blocks news
write_blocks-octets e frame [] = omega arith
write_blocks-octets e frame ((ssrc, p) ∷ participants) =
    go p.stats.received_rtp_packet (write_block e frame ssrc p.stats)
      (write_block-octets e frame ssrc p.stats)
      (λ before. write_blocks-octets e before participants)
  where
    go :
        (heard : Bool) (longer : List ℕ)
        → length longer ≡ length frame + 24
        → ((before : List ℕ)
            → length (write_blocks e before participants).0
              ≡ length before + 24 * news participants)
        → length (write_blocks e (if heard then longer else frame) participants).0
          ≡ length frame + 24 * (if heard then suc (news participants) else news participants)
    go true longer more others = others longer ∙ omega arith
    go false longer more others = others frame

construct_rtcp_header-fits :
    (size second : ℕ) (type : RtcpFrameType)
    → size ≤ 65535
    → size % 4 ≡ 0
    → (frame : List ℕ) × (construct_rtcp_header [] size second type ≡ (true, frame))
      × (length frame ≡ 4)
unfolding construct_rtcp_header
construct_rtcp_header-fits size second type short words =
    let small : ltb 65535 size ≡ false = ground arith in
    (
      (bit_or 128 second % 256)
          ∷ (frame_type_number type ∷ put16 ((size % 2 ^ 16 / 4 + 2 ^ 64 - 1) % 2 ^ 16)),
      rw (small, words) refl,
      refl,
    )

-- The sizes of the reports without SRTP.
pub report_sizes :
    (rce_flags n : ℕ)
    → flag_set rce_flags rce_srtp ≡ false
    → n < 256
    → (get_rr_packet_size rce_flags n ≡ 8 + 24 * n) × (get_sr_packet_size rce_flags n ≡ 28 + 24 * n)
unfolding get_rr_packet_size get_sr_packet_size
report_sizes rce_flags n plain few = (rw plain (omega arith), rw plain (omega arith))

pub write_start-octets :
    (e : ReportEnv) (r : Reporter) (n : ℕ)
    → flag_set r.rce_flags rce_srtp ≡ false
    → n < 256
    → (frame : List ℕ) × (write_start e r n ≡ (true, frame))
      × (length frame ≡ (if sends_sr r then 28 else 8))
unfolding write_start construct_ssrc construct_sender_info
write_start-octets e r n plain few =
    let (rr_size, sr_size) = report_sizes r.rce_flags n plain few in
    elim (Bool-cases (sends_sr r)) [
      | inl sends ↦
          (let (frame, made, four) =
              construct_rtcp_header-fits (get_sr_packet_size r.rce_flags n) n sr (omega arith)
                (omega arith) in
            (
              construct_sender_info (construct_ssrc frame r.ssrc) e.ntp_now e.rtp_ts
                  r.our_stats.sent_pkts r.our_stats.sent_bytes,
              rw (sends, made) refl,
              rw sends (
                  length-append (frame ++ put32 r.ssrc) _
                  ∙ omega (arith, length-append frame (put32 r.ssrc))),
            ))
      | inr receives ↦
          (let (frame, made, four) =
              construct_rtcp_header-fits (get_rr_packet_size r.rce_flags n) n rr (omega arith)
                (omega arith) in
            (
              construct_ssrc frame r.ssrc,
              rw (receives, made) refl,
              rw receives (length-append frame (put32 r.ssrc) ∙ omega arith),
            ))
    ]
