-- ===== src/Rtcp/Report.antt =====
-- src/rtcp.cc: generate_report(), which writes a compound packet, and what it is made of. The packet is
-- the list of the octets that are written, so `write_ptr` is its length; a write behind the buffer is
-- `none`. What is computed with floating-point numbers, the clock and what the hooks for APP packets
-- return are arguments.
use uvg_rtp.Prelude.{
  ◌&&◌, ltb, leb, ◌==◌, if◌then◌else◌, length, replicate, ◌>>=◌, ℕ, ◌+◌, ◌-◌, ◌*◌, ◌/◌, ◌%◌, ◌^◌,
  Bool, true, false, ◌||◌, Option, none, some, List, [], ◌∷◌, ◌++◌,
}
use uvg_rtp.Util.{RtpError, ok, generic_error}
use uvg_rtp.Rtcp.Packets.{
  SdesItem, get_rr_packet_size, get_sr_packet_size, get_app_packet_size, get_sdes_packet_size,
  get_bye_packet_size, construct_rtcp_header, construct_ssrc, construct_sender_info,
  construct_report_block, construct_sdes_chunk, construct_bye_packet, construct_app_block, sr, rr,
  sdes, bye,
}
use uvg_rtp.Rtcp.Participants.{ReceiverStatistics, Participants, expected_of}
use uvg_rtp.Rtcp.Incoming.{Control, update_rtcp_bandwidth, update_avg_rtcp_size}

-- enum ROLE.
pub data Role : Type 0 where
  receiver sender : Role

-- struct sender_statistics.
pub record SenderStatistics : Type 0 where
  pub sent_pkts : ℕ
  pub sent_bytes : ℕ
  pub sent_rtp_packet : Bool

-- rtcp::rtcp_app_packet.
pub record OutgoingApp : Type 0 where
  pub name : List ℕ
  pub subtype : ℕ
  pub payload_len : ℕ
  pub payload : List ℕ

-- The members of class rtcp that reports use. `app_packets` has the queues in the order of the map.
pub record Reporter : Type 0 where
  pub control : Control
  pub our_role : Role
  pub our_stats : SenderStatistics
  pub our_items : List SdesItem
  pub app_packets : List (List OutgoingApp)
  pub bye_ssrcs : List ℕ
  pub rtcp_pkt_sent_count : ℕ
  pub ssrc : ℕ
  pub rce_flags : ℕ
  pub clock_start : ℕ

-- The clock's readings for `clock_start_` and for the report, the RTP timestamp that belongs to the
-- latter, the jitter of each participant and the delay since its last report, and the packets that the
-- hooks for APP packets give, if there are such hooks.
pub record ReportEnv : Type 0 where
  pub clock_now : ℕ
  pub ntp_now : ℕ
  pub rtp_ts : ℕ
  pub jitter : ℕ → ℕ
  pub delay : ℕ → ℕ
  pub hooked : Option (List OutgoingApp)

unfoldable pub first_packets : List (List OutgoingApp) → List OutgoingApp
first_packets [] = []
first_packets ([] ∷ queues) = first_packets queues
first_packets ((next ∷ apps) ∷ queues) = next ∷ first_packets queues

-- size_of_apps_from_hook(), and size_of_ready_app_packets() on the first packet of each queue.
unfoldable pub size_of_apps : ℕ → List OutgoingApp → ℕ
size_of_apps size [] = size
size_of_apps size (next ∷ apps) =
    size_of_apps ((size + get_app_packet_size next.payload_len) % 2 ^ 32) apps

unfoldable pub count_reports : Participants → ℕ → ℕ
count_reports [] n = n
count_reports ((ssrc, p) ∷ participants) n =
    count_reports participants (if p.stats.received_rtp_packet then (n + 1) % 256 else n)

unfoldable pub sends_sr : Reporter → Bool
sends_sr r = elim r.our_role [ sender ↦ r.our_stats.sent_rtp_packet | receiver ↦ false ]

-- size_of_compound_packet() with a sender report or a receiver report, and an SDES packet.
unfoldable pub size_of_compound_packet : Reporter → ℕ → ℕ → ℕ
unfolding sends_sr
size_of_compound_packet r reports app_size =
    let report =
      if sends_sr r
      then get_sr_packet_size r.rce_flags reports
      else get_rr_packet_size r.rce_flags reports in
    let size = (report + get_sdes_packet_size r.our_items + app_size) % 2 ^ 32 in
    elim r.bye_ssrcs [ [] ↦ size | b ∷ bs ↦ (size + get_bye_packet_size (b ∷ bs)) % 2 ^ 32 ]

-- The header, our ssrc and, in a sender report, the sender's information.
unfoldable pub write_start : ReportEnv → Reporter → ℕ → Bool × List ℕ
unfolding sends_sr
write_start e r reports =
    if sends_sr r
    then (let (fits, frame) =
          construct_rtcp_header [] (get_sr_packet_size r.rce_flags reports) reports sr in
        if fits
        then (
          true,
          construct_sender_info (construct_ssrc frame r.ssrc) e.ntp_now e.rtp_ts
              r.our_stats.sent_pkts r.our_stats.sent_bytes,
        )
        else (false, frame))
    else (let (fits, frame) =
          construct_rtcp_header [] (get_rr_packet_size r.rce_flags reports) reports rr in
        if fits then (true, construct_ssrc frame r.ssrc) else (false, frame))

-- The fraction of the packets that were lost since the last report, in 1/256. The difference is an
-- int32_t.
unfoldable pub fraction_lost : ℕ → ℕ → ℕ
fraction_lost expected_interval received_interval =
    let lost_interval = (expected_interval + 2 ^ 32 - received_interval) % 2 ^ 32 in
    if expected_interval == 0 || (lost_interval == 0 || leb (2 ^ 31) lost_interval)
    then 0
    else (let fraction = lost_interval * 256 % 2 ^ 32 / expected_interval in
        if ltb 255 fraction then 255 else fraction)

-- The report block of a participant, and its statistics after it.
unfoldable pub write_block : ReportEnv → List ℕ → ℕ → ReceiverStatistics → List ℕ
unfolding fraction_lost
write_block e frame ssrc s =
    let expected_interval = (expected_of s + 2 ^ 32 - s.expected_prior) % 2 ^ 32 in
    let received_interval = (s.received_pkts + 2 ^ 32 - s.received_prior) % 2 ^ 32 in
    construct_report_block frame ssrc (fraction_lost expected_interval received_interval)
      s.lost_pkts s.cycles s.max_seq (e.jitter ssrc) s.lsr (if s.lsr == 0 then 0 else e.delay ssrc)

unfoldable pub reported : ReceiverStatistics → ReceiverStatistics
reported s = record s {
  expected_prior = expected_of s;
  received_prior = s.received_pkts;
  received_rtp_packet = false;
}

unfoldable pub write_blocks : ReportEnv → List ℕ → Participants → List ℕ × Participants
unfolding write_block reported
write_blocks e frame [] = (frame, [])
write_blocks e frame ((ssrc, p) ∷ participants) =
    let has_news = p.stats.received_rtp_packet in
    let (frame', rest) =
      write_blocks e (if has_news then write_block e frame ssrc p.stats else frame) participants in
    (frame', (ssrc, (if has_news then record p { stats = reported p.stats } else p)) ∷ rest)

unfoldable pub write_sdes : Reporter → ℕ → List ℕ → Option (Bool × List ℕ)
write_sdes r receivers frame =
    let (fits, frame') =
      construct_rtcp_header frame (get_sdes_packet_size r.our_items) (receivers % 256) sdes in
    if fits
    then construct_sdes_chunk frame' (record { ssrc = r.ssrc; items = r.our_items })
    else some (false, frame')

-- The APP packets, up to the first that is refused.
unfoldable pub write_apps : ℕ → List ℕ → List OutgoingApp → Option (Bool × List ℕ)
write_apps ssrc frame [] = some (true, frame)
write_apps ssrc frame (next ∷ apps) =
    let rest = λ (frame' : List ℕ). write_apps ssrc frame' apps in
    (do
      (fits, frame') ←
          construct_app_block frame (next.subtype % 32) ssrc next.name next.payload next.payload_len
      if fits then rest frame' else some (false, frame'))

unfoldable pub write_bye : Reporter → List ℕ → Bool × List ℕ
write_bye r frame = elim r.bye_ssrcs [
  | [] ↦ (true, frame)
  | b ∷ bs ↦
      (let (fits, frame') =
          construct_rtcp_header frame (get_bye_packet_size (b ∷ bs)) (length (b ∷ bs) % 32) bye in
        if fits then (true, construct_bye_packet frame' (b ∷ bs)) else (false, frame'))
]

-- The oldest packet of each queue, which is taken out even if it is refused.
unfoldable pub write_queues :
    ℕ → List ℕ → List (List OutgoingApp) → Option (Bool × List ℕ × List (List OutgoingApp))
write_queues ssrc frame [] = some (true, frame, [])
write_queues ssrc frame ([] ∷ queues) = do
  (fits, frame', left) ← write_queues ssrc frame queues
  some (fits, frame', [] ∷ left)
write_queues ssrc frame ((next ∷ apps) ∷ queues) =
    let rest = λ (frame' : List ℕ). write_queues ssrc frame' queues in
    (do
      (fits, frame') ←
          construct_app_block frame (next.subtype % 32) ssrc next.name next.payload next.payload_len
      if fits
          then (do (done, frame'', left) ← rest frame'; some (done, frame'', apps ∷ left))
          else some (false, frame', apps ∷ queues))

unfoldable pub write_app_packets :
    ReportEnv → Reporter → ℕ → List ℕ → Option (Bool × List ℕ × List (List OutgoingApp))
unfolding write_apps write_queues
write_app_packets e r app_size frame =
    if app_size == 0 then some (true, frame, r.app_packets) else elim e.hooked [
      | none ↦ write_queues r.ssrc frame r.app_packets
      | some apps ↦ (do
        (done, frame') ← write_apps r.ssrc frame apps
        some (done, frame', r.app_packets))
    ]

-- Whether all was written, the octets, and the state.
abbrev pub Written : Type 0
Written = Option (Bool × List ℕ × Reporter)

-- The SDES, APP and BYE packets, which follow the report. The list for BYE is cleared.
unfoldable pub write_rest : ReportEnv → Reporter → ℕ → List ℕ → Written
unfolding write_sdes write_app_packets write_bye
write_rest e r app_size frame = do
  (named, frame1) ← write_sdes r r.control.rtcp.num_receivers frame
  if named
      then (do
        (done, frame2, left) ← write_app_packets e r app_size frame1
        let r' = record r { app_packets = left }
        if done
            then (let (last, frame3) = write_bye r' frame2 in
                some (last, frame3, record r' { bye_ssrcs = [] }))
            else some (false, frame2, r'))
      else some (false, frame1, r)

-- A sender report resets the flag of the sender's statistics.
unfoldable pub after_report : Reporter → Participants → Reporter
unfolding sends_sr
after_report r participants = record r {
  our_stats = record r.our_stats {
    sent_rtp_packet = if sends_sr r then false else r.our_stats.sent_rtp_packet;
  };
  control = record r.control { rtcp = record r.control.rtcp { participants = participants } };
}

-- The first sender report sets `clock_start_`, whether it is then written or not.
unfoldable pub start_clock : ReportEnv → Reporter → Reporter
unfolding sends_sr
start_clock e r = record r {
  clock_start = if sends_sr r && r.clock_start == 0 then e.clock_now else r.clock_start;
}

unfoldable pub write_report : ReportEnv → Reporter → ℕ → ℕ → Written
unfolding write_start write_blocks write_rest after_report start_clock
write_report e r reports app_size =
    let (fits, frame) = write_start e r reports in
    if fits
    then (let (frame', participants) = write_blocks e frame r.control.rtcp.participants in
        write_rest e (after_report (start_clock e r) participants) app_size frame')
    else some (false, frame, start_clock e r)

unfoldable pub apps_size : ReportEnv → Reporter → ℕ
unfolding size_of_apps first_packets
apps_size e r = elim e.hooked [
  | none ↦ size_of_apps 0 (first_packets r.app_packets)
  | some apps ↦ size_of_apps 0 apps
]

-- The buffer has the size that was computed before, and is zero where nothing is written.
unfoldable pub in_buffer :
    ℕ → Bool × List ℕ × Reporter → Option (RtpError × Reporter × Option (List ℕ))
in_buffer size (done, frame, r) =
    if ltb size (length frame)
    then none
    else some (
        if done
        then (ok, r, some (frame ++ replicate (size - length frame) 0))
        else (generic_error, r, none))

unfoldable pub build_report : ReportEnv → Reporter → Option (RtpError × Reporter × Option (List ℕ))
unfolding count_reports apps_size write_report in_buffer
build_report e r =
    let r' = record r { rtcp_pkt_sent_count = (r.rtcp_pkt_sent_count + 1) % 2 ^ 32 } in
    let reports = count_reports r.control.rtcp.participants 0 in
    let size = size_of_compound_packet r reports (apps_size e r) in
    let rest = (do written ← write_report e r' reports (apps_size e r); in_buffer size written) in
    if size == 0 then some (generic_error, r', none) else rest

unfoldable pub encrypted : Option (List ℕ → RtpError × List ℕ) → List ℕ → RtpError × List ℕ
encrypted none frame = (ok, frame)
encrypted (some handle) frame = handle frame

-- `encrypt` is handle_rtcp_encryption(), if there is SRTCP, and `sendto` the socket, if there is one.
-- What is returned, the state, and what the socket was given.
unfoldable pub send_rtcp_packet_to_participants :
    Option (List ℕ → RtpError × List ℕ)
    → Option (List ℕ → RtpError)
    → List ℕ
    → Control
    → RtpError × Control × Option (List ℕ)
unfolding encrypted
send_rtcp_packet_to_participants encrypt sendto frame c =
    let (ret, frame') = encrypted encrypt frame in
    elim ret [
      | ok ↦ elim sendto [
        | none ↦ (ok, c, none)
        | some send ↦ (
          send frame',
          update_avg_rtcp_size (length frame') (update_rtcp_bandwidth (length frame') c),
          some frame',
        )
      ]
      | other ↦ (other, c, none)
    ]

-- No report is sent if there are no other participants.
unfoldable pub generate_report :
    ReportEnv
    → Option (List ℕ → RtpError × List ℕ)
    → Option (List ℕ → RtpError)
    → Reporter
    → Option (RtpError × Reporter × Option (List ℕ))
generate_report e encrypt sendto r = elim r.control.rtcp.participants [
  | [] ↦ some (ok, r, none)
  | p ∷ ps ↦ (do
    (ret, r', packet) ← build_report e r
    elim packet [
      | none ↦ some (ret, r', none)
      | some frame ↦
          (let (sent_ret, c, sent) =
              send_rtcp_packet_to_participants encrypt sendto frame r'.control in
            some (sent_ret, record r' { control = c }, sent))
    ])
]
