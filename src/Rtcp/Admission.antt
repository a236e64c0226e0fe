-- ===== src/Rtcp/Admission.antt =====
-- How the handler takes a sender that it does not know: the first frames, up to the end of probation.
use uvg_rtp.Prelude.{
  ℕ, ◌+◌, ◌≡◌, ◌≢◌, ap, ◌∙◌, arith, false, none, some, lookup, insert, lookup-insert_self,
}
use uvg_rtp.Util.{ok, not_ready, pkt_not_handled}
use uvg_rtp.Frame.{RtpFrame}
use uvg_rtp.Rtcp.Participants.{
  Rtcp, RtcpParticipant, zero_stats, update_seq, init_seq, update_stats, recv_packet_handler_common,
  put_on_probation, is_participant, update_session_statistics, init_new_participant,
  add_participant, add_initial_participant, max_supported_participants,
}
use uvg_rtp.Rtcp.Sequence.{
  is_participant_known, update_participant_seq_known, update_session_statistics_known,
}

add_participant_room :
    (ssrc : ℕ) (r : Rtcp)
    → r.num_receivers ≢ max_supported_participants
    → add_participant ssrc (add_initial_participant r.clock_rate r) ≡ (
      ok,
      record r {
        participants =
            insert ssrc
              (record { stats = record zero_stats { clock_rate = r.clock_rate }; probation = 0 })
              r.participants;
        members = r.members + 1;
        num_receivers = r.num_receivers + 1;
      },
    )
unfolding add_participant add_initial_participant
add_participant_room ssrc r room = ground arith

abbrev pub new_participant : ℕ → RtpFrame → Rtcp → RtcpParticipant
new_participant ntp_now f r = record {
  probation = 2;
  stats = record zero_stats {
    clock_rate = r.clock_rate;
    base_seq = f.header.seq;
    max_seq = f.header.seq;
    bad_seq = 65537;
    initial_rtp = f.header.timestamp;
    initial_ntp = ntp_now;
  };
}

is_participant_unknown :
    (ssrc : ℕ) (r : Rtcp) → lookup ssrc r.participants ≡ none → is_participant ssrc r ≡ false
unfolding is_participant
is_participant_unknown ssrc r unknown = ground arith

put_on_probation_known :
    (ntp_now : ℕ) (f : RtpFrame) (r : Rtcp) (p : RtcpParticipant)
    → lookup f.header.ssrc r.participants ≡ some p
    → put_on_probation ntp_now f r ≡ (
      ok,
      record r {
        participants =
            insert f.header.ssrc
              (record {
                probation = 2;
                stats = record p.stats {
                  base_seq = f.header.seq;
                  max_seq = f.header.seq;
                  bad_seq = 65537;
                  initial_rtp = f.header.timestamp;
                  initial_ntp = ntp_now;
                };
              })
              r.participants;
        senders = r.senders + 1;
      },
    )
unfolding put_on_probation init_seq
put_on_probation_known ntp_now f r p known = ground arith

abbrev zeroed : Rtcp → RtcpParticipant
zeroed r = record { stats = record zero_stats { clock_rate = r.clock_rate }; probation = 0 }

abbrev joined : ℕ → Rtcp → Rtcp
joined ssrc r = record r {
  participants = insert ssrc (zeroed r) r.participants;
  ms_since_last_rep = insert ssrc 0 r.ms_since_last_rep;
  members = r.members + 1;
  num_receivers = r.num_receivers + 1;
}

init_new_participant-joined :
    (ntp_now : ℕ) (f : RtpFrame) (r : Rtcp)
    → r.num_receivers ≢ max_supported_participants
    → init_new_participant ntp_now f r ≡ put_on_probation ntp_now f (joined f.header.ssrc r)
unfolding init_new_participant add_initial_participant
init_new_participant-joined ntp_now f r room = ground (
  arith,
  add_participant_room f.header.ssrc
      (record r { ms_since_last_rep = insert f.header.ssrc 0 r.ms_since_last_rep }) room,
)

init_new_participant_room :
    (ntp_now : ℕ) (f : RtpFrame) (r : Rtcp)
    → r.num_receivers ≢ max_supported_participants
    → (r' : Rtcp) × (init_new_participant ntp_now f r ≡ (ok, r'))
      × (lookup f.header.ssrc r'.participants ≡ some (new_participant ntp_now f r))
init_new_participant_room ntp_now f r room =
    let ssrc : ℕ = f.header.ssrc in
    let r1 : Rtcp = joined ssrc r in
    (
      record r1 {
        participants = insert ssrc (new_participant ntp_now f r) r1.participants;
        senders = r1.senders + 1;
      },
      init_new_participant-joined ntp_now f r room
          ∙ put_on_probation_known ntp_now f r1 (zeroed r)
              (lookup-insert_self ssrc (zeroed r) r.participants),
      lookup-insert_self ssrc (new_participant ntp_now f r) r1.participants,
    )

handler_admits :
    (ntp_now elapsed : ℕ) (f : RtpFrame) (r r' : Rtcp)
    → is_participant f.header.ssrc r ≡ false
    → init_new_participant ntp_now f r ≡ (ok, r')
    → recv_packet_handler_common ntp_now elapsed f r
      ≡ (pkt_not_handled, update_session_statistics elapsed f r')
unfolding recv_packet_handler_common
handler_admits ntp_now elapsed f r r' new joins = ground arith

-- A sender that is not known yet, on its first frame.
pub first_frame :
    (ntp_now elapsed : ℕ) (f : RtpFrame) (r : Rtcp)
    → lookup f.header.ssrc r.participants ≡ none
    → r.num_receivers ≢ max_supported_participants
    → (r' : Rtcp) × (recv_packet_handler_common ntp_now elapsed f r ≡ (pkt_not_handled, r'))
      × (lookup f.header.ssrc r'.participants
          ≡ some (record (new_participant ntp_now f r) {
            stats = update_stats elapsed f (new_participant ntp_now f r).stats;
          }))
first_frame ntp_now elapsed f r unknown room =
    let ssrc : ℕ = f.header.ssrc in
    let p : RtcpParticipant = new_participant ntp_now f r in
    let p' : RtcpParticipant = record p { stats = update_stats elapsed f p.stats } in
    let (r1, joins, here) = init_new_participant_room ntp_now f r room in
    (
      record r1 { participants = insert ssrc p' r1.participants },
      handler_admits ntp_now elapsed f r r1 (is_participant_unknown ssrc r unknown) joins
          ∙ ap (λ (x : Rtcp). (pkt_not_handled, x))
              (update_session_statistics_known elapsed f r1 p here),
      lookup-insert_self ssrc p' r1.participants,
    )

-- The second frame, in sequence, is not passed on.
pub handler_waits :
    (ntp_now elapsed : ℕ) (f : RtpFrame) (r : Rtcp) (p p' : RtcpParticipant)
    → lookup f.header.ssrc r.participants ≡ some p
    → update_seq f.header.seq p ≡ (not_ready, p')
    → (r' : Rtcp) × (recv_packet_handler_common ntp_now elapsed f r ≡ (ok, r'))
      × (lookup f.header.ssrc r'.participants ≡ some p')
unfolding recv_packet_handler_common
handler_waits ntp_now elapsed f r p p' known waits = (
  record r { participants = insert f.header.ssrc p' r.participants },
  ground (
    arith,
    is_participant_known f.header.ssrc r p known,
    update_participant_seq_known f.header.ssrc f.header.seq r p p' not_ready known waits,
  ),
  lookup-insert_self f.header.ssrc p' r.participants,
)

pub update_seq_waits :
    (p : RtcpParticipant) (seq : ℕ)
    → p.probation ≡ 2
    → seq ≡ p.stats.max_seq + 1
    → update_seq seq p
      ≡ (not_ready, record p { probation = 1; stats = record p.stats { max_seq = seq } })
unfolding update_seq
update_seq_waits p seq on next = ground arith

pub update_seq_validates :
    (p : RtcpParticipant) (seq : ℕ)
    → p.probation ≡ 1
    → seq ≡ p.stats.max_seq + 1
    → update_seq seq p ≡ (
      ok,
      record p {
        probation = 0;
        stats = record p.stats { base_seq = seq; max_seq = seq; bad_seq = 65537 };
      },
    )
unfolding update_seq init_seq
update_seq_validates p seq on next = ground arith
