-- ===== src/Rtcp/Participants.antt =====
-- src/rtcp.cc and include/uvgrtp/rtcp.hh: what is counted of each sender, from the RTP frames that
-- arrive. The map `participants_` is an association list; frames of control packets that are kept for
-- the user, and the floating-point estimate of the jitter, are left out. Clock readings are arguments.
use uvg_rtp.Prelude.{
  ℕ, ◌+◌, ◌-◌, ◌*◌, ◌/◌, ◌%◌, ◌^◌, Bool, true, false, not, none, some, List, [], ◌∷◌, ◌==◌, ltb,
  leb, if◌then◌else◌, lookup, insert,
}
use uvg_rtp.Util.{RtpError, ok, generic_error, not_found, not_ready, pkt_not_handled}
use uvg_rtp.Frame.{RtpFrame}

abbrev pub rtp_seq_mod : ℕ
rtp_seq_mod = 65536

abbrev pub min_sequential : ℕ
min_sequential = 2

abbrev pub max_dropout : ℕ
max_dropout = 3000

abbrev pub max_misorder : ℕ
max_misorder = 100

-- MAX_SUPPORTED_PARTICIPANTS.
abbrev pub max_supported_participants : ℕ
max_supported_participants = 31

-- struct receiver_statistics, without `jitter` and `sr_ts`.
pub record ReceiverStatistics : Type 0 where
  pub received_pkts : ℕ
  pub lost_pkts : ℕ
  pub received_bytes : ℕ
  pub received_rtp_packet : Bool
  pub expected_pkts : ℕ
  pub received_prior : ℕ
  pub expected_prior : ℕ
  pub transit : ℕ
  pub initial_ntp : ℕ
  pub initial_rtp : ℕ
  pub clock_rate : ℕ
  pub lsr : ℕ
  pub max_seq : ℕ
  pub base_seq : ℕ
  pub bad_seq : ℕ
  pub cycles : ℕ

-- struct rtcp_participant, without `role` and the frames.
pub record RtcpParticipant : Type 0 where
  pub stats : ReceiverStatistics
  pub probation : ℕ

abbrev pub Participants : Type 0
Participants = List (ℕ × RtcpParticipant)

-- The members of class rtcp that the frames change.
pub record Rtcp : Type 0 where
  pub participants : Participants
  pub initial_participants : List RtcpParticipant
  pub ms_since_last_rep : List (ℕ × ℕ)
  pub clock_rate : ℕ
  pub num_receivers : ℕ
  pub members : ℕ
  pub senders : ℕ

-- zero_stats() of a receiver.
abbrev pub zero_stats : ReceiverStatistics
zero_stats = record {
  received_pkts = 0;
  lost_pkts = 0;
  received_bytes = 0;
  received_rtp_packet = false;
  expected_pkts = 0;
  received_prior = 0;
  expected_prior = 0;
  transit = 0;
  initial_ntp = 0;
  initial_rtp = 0;
  clock_rate = 0;
  lsr = 0;
  max_seq = 0;
  base_seq = 0;
  bad_seq = 0;
  cycles = 0;
}

unfoldable pub is_participant : ℕ → Rtcp → Bool
is_participant ssrc r = elim (lookup ssrc r.participants) [ none ↦ false | some p ↦ true ]

unfoldable pub add_initial_participant : ℕ → Rtcp → Rtcp
add_initial_participant clock_rate r = record r {
  initial_participants =
      record { stats = record zero_stats { clock_rate = clock_rate }; probation = 0 }
      ∷ r.initial_participants;
  members = r.members + 1;
}

-- The list of the initial participants has its newest first.
unfoldable pub add_participant : ℕ → Rtcp → RtpError × Rtcp
add_participant ssrc r =
    if r.num_receivers == max_supported_participants then (generic_error, r) else (
      ok,
      elim r.initial_participants [
        | [] ↦ record r {
          participants = insert ssrc (record { stats = zero_stats; probation = 0 }) r.participants;
          num_receivers = r.num_receivers + 1;
        }
        | p ∷ ps ↦ record r {
          participants = insert ssrc p r.participants;
          initial_participants = ps;
          num_receivers = r.num_receivers + 1;
        }
      ],
    )

-- init_participant_seq() on the participant's entry.
unfoldable pub init_seq : ℕ → RtcpParticipant → RtcpParticipant
init_seq base_seq p = record p {
  stats = record p.stats {
    base_seq = base_seq;
    max_seq = base_seq;
    bad_seq = (rtp_seq_mod + 1) % (2 ^ 32 - 1);
  };
}

unfoldable pub init_participant_seq : ℕ → ℕ → Rtcp → RtpError × Rtcp
unfolding init_seq
init_participant_seq ssrc base_seq r = elim (lookup ssrc r.participants) [
  | none ↦ (not_found, r)
  | some p ↦ (ok, record r { participants = insert ssrc (init_seq base_seq p) r.participants })
]

-- The uint16_t difference.
unfoldable pub seq_delta : ℕ → ℕ → ℕ
seq_delta seq max_seq = (seq + 65536 - max_seq) % 65536

-- update_participant_seq() on the participant's entry. `max_seq + 1` is an int, which does not wrap.
unfoldable pub update_seq : ℕ → RtcpParticipant → RtpError × RtcpParticipant
update_seq seq p =
    let s = p.stats in
    let udelta = seq_delta seq s.max_seq in
    if not (p.probation == 0)
    then (if seq == s.max_seq + 1
        then (let p' = record p {
          probation = p.probation - 1;
          stats = record s { max_seq = seq };
        } in
            if p.probation - 1 == 0 then (ok, init_seq seq p') else (not_ready, p'))
        else (
          not_ready,
          record p { probation = min_sequential - 1; stats = record s { max_seq = seq } },
        ))
    else (if ltb udelta max_dropout
        then (
          ok,
          record p {
            stats = record s {
              cycles = if ltb seq s.max_seq then (s.cycles + 1) % 65536 else s.cycles;
              max_seq = seq;
            };
          },
        )
        else (if leb udelta (rtp_seq_mod - max_misorder)
            then (if seq == s.bad_seq then (ok, init_seq seq p) else (
              generic_error,
              record p { stats = record s { bad_seq = (seq + 1) % rtp_seq_mod } },
            ))
            else (ok, p)))

unfoldable pub update_participant_seq : ℕ → ℕ → Rtcp → RtpError × Rtcp
update_participant_seq ssrc seq r = elim (lookup ssrc r.participants) [
  | none ↦ (generic_error, r)
  | some p ↦
      (let (ret, p') = update_seq seq p in
        (ret, record r { participants = insert ssrc p' r.participants }))
]

-- init_new_participant() after the participant was added.
unfoldable pub put_on_probation : ℕ → RtpFrame → Rtcp → RtpError × Rtcp
unfolding init_seq
put_on_probation ntp_now frame r = elim (lookup frame.header.ssrc r.participants) [
  | none ↦ (not_found, r)
  | some p ↦
      (let p' = init_seq frame.header.seq p in
        (
          ok,
          record r {
            participants =
                insert frame.header.ssrc
                  (record p' {
                    probation = min_sequential;
                    stats = record p'.stats {
                      initial_rtp = frame.header.timestamp;
                      initial_ntp = ntp_now;
                    };
                  })
                  r.participants;
            senders = r.senders + 1;
          },
        ))
]

-- `ntp_now` is ntp::now(). An error leaves what was done before it.
unfoldable pub init_new_participant : ℕ → RtpFrame → Rtcp → RtpError × Rtcp
init_new_participant ntp_now frame r =
    let ssrc = frame.header.ssrc in
    let r1 = add_initial_participant r.clock_rate r in
    let (ret, r2) =
      add_participant ssrc (record r1 { ms_since_last_rep = insert ssrc 0 r1.ms_since_last_rep }) in
    elim ret [ ok ↦ put_on_probation ntp_now frame r2 | other ↦ (other, r2) ]

-- update_session_statistics() on the entry, without the jitter; `elapsed` is the milliseconds since
-- the first frame. Ints wrap as the compilers do it.
unfoldable pub expected_of : ReceiverStatistics → ℕ
expected_of s = (s.cycles * 65536 + s.max_seq + 2 ^ 32 - s.base_seq + 1) % 2 ^ 32

unfoldable pub update_stats : ℕ → RtpFrame → ReceiverStatistics → ReceiverStatistics
unfolding expected_of
update_stats elapsed frame s =
    let received = (s.received_pkts + 1) % 2 ^ 32 in
    let dropped = (expected_of s + 2 ^ 32 - received) % 2 ^ 32 in
    let arrival = (s.initial_rtp + elapsed % 2 ^ 32 * (s.clock_rate / 1000)) % 2 ^ 32 in
    record s {
      received_rtp_packet = true;
      received_pkts = received;
      received_bytes = (s.received_bytes + frame.payload_len % 2 ^ 32) % 2 ^ 32;
      lost_pkts = if ltb dropped (2 ^ 31) then dropped else 0;
      transit = (arrival + 2 ^ 32 - frame.header.timestamp) % 2 ^ 32;
    }

unfoldable pub update_session_statistics : ℕ → RtpFrame → Rtcp → Rtcp
unfolding update_stats
update_session_statistics elapsed frame r = elim (lookup frame.header.ssrc r.participants) [
  | none ↦ r
  | some p ↦ record r {
    participants =
        insert frame.header.ssrc (record p { stats = update_stats elapsed frame p.stats })
          r.participants;
  }
]

-- recv_packet_handler_common() on a frame; `ntp_now` and `elapsed` are the clock.
unfoldable pub recv_packet_handler_common : ℕ → ℕ → RtpFrame → Rtcp → RtpError × Rtcp
recv_packet_handler_common ntp_now elapsed frame r =
    if not (is_participant frame.header.ssrc r)
    then (let (ret, r') = init_new_participant ntp_now frame r in
        elim ret [
          | ok ↦ (pkt_not_handled, update_session_statistics elapsed frame r')
          | other ↦ (generic_error, r')
        ])
    else (let (ret, r') = update_participant_seq frame.header.ssrc frame.header.seq r in
        elim ret [
          | ok ↦ (pkt_not_handled, update_session_statistics elapsed frame r')
          | not_ready ↦ (ok, r')
          | other ↦ (other, r')
        ])
