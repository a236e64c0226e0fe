-- ===== src/Rtcp/Sequence.antt =====
-- What the receiver counts of a sender's frames: the extended sequence number and the lost packets.
use uvg_rtp.Prelude.{
  ℕ, suc, ◌+◌, ◌-◌, ◌*◌, ◌%◌, ◌^◌, ◌≤◌, ◌<◌, ◌≡◌, refl, sym, ap, ◌∙◌, arith, true, some, ltb,
  if◌then◌else◌, lookup, insert, lookup-insert_self, Bool-cases, inl, inr,
}
use uvg_rtp.Util.{RtpError, ok, pkt_not_handled}
use uvg_rtp.Frame.{RtpFrame}
use uvg_rtp.Rtcp.Participants.{
  Rtcp, RtcpParticipant, ReceiverStatistics, update_seq, seq_delta, update_stats, expected_of,
  recv_packet_handler_common, is_participant, update_participant_seq, update_session_statistics,
}

-- The sequence number with the cycles above it.
abbrev pub extended_seq : ReceiverStatistics → ℕ
extended_seq s = s.cycles * 65536 + s.max_seq

seq_delta_forward : (m d : ℕ) → m < 65536 → d < 3000 → seq_delta ((m + d) % 65536) m ≡ d
unfolding seq_delta
seq_delta_forward m d h b = omega arith

cycles_forward :
    (m d c : ℕ)
    → m < 65536
    → d < 3000
    → c + 1 < 65536
    → (if ltb ((m + d) % 65536) m then (c + 1) % 65536 else c) * 65536 + (m + d) % 65536
      ≡ c * 65536 + m + d
cycles_forward m d c h b k = ground arith

-- A frame of a valid sender that is fewer than MAX_DROPOUT ahead, wherever in the 16-bit range, while
-- the count of cycles has room, is accepted: the extended sequence number goes ahead by as much, the
-- highest sequence number is the frame's, and the first one and the count of received frames stay.
pub update_seq_forward :
    (p : RtcpParticipant) (d : ℕ)
    → p.probation ≡ 0
    → p.stats.max_seq < 65536
    → p.stats.cycles + 1 < 65536
    → d < 3000
    → (s : ReceiverStatistics) × (update_seq ((p.stats.max_seq + d) % 65536) p
        ≡ (ok, record p { stats = s }))
      × (extended_seq s ≡ extended_seq p.stats + d)
      × (s.max_seq ≡ (p.stats.max_seq + d) % 65536)
      × (s.base_seq ≡ p.stats.base_seq)
      × (s.received_pkts ≡ p.stats.received_pkts)
unfolding update_seq
update_seq_forward p d valid u16 room near =
    let seq : ℕ = (p.stats.max_seq + d) % 65536 in
    let e = seq_delta_forward p.stats.max_seq d u16 near in
    let h : ltb d 3000 ≡ true = ground arith in
    (
      record p.stats {
        cycles = if ltb seq p.stats.max_seq then (p.stats.cycles + 1) % 65536 else p.stats.cycles;
        max_seq = seq;
      },
      rw (valid, e, h) refl,
      cycles_forward p.stats.max_seq d p.stats.cycles u16 near room,
      refl,
      refl,
      refl,
    )

-- A valid sender of whom n frames were counted and l were skipped; c of those that were counted came
-- before the sequence that the count of expected frames begins with.
pub record Tracked (n l c : ℕ) (p : RtcpParticipant) : Type 0 where
  pub valid : p.probation ≡ 0
  pub u16 : p.stats.max_seq < 65536
  pub received : p.stats.received_pkts ≡ n
  pub surplus : c ≤ n
  pub balance : p.stats.base_seq + n + l ≡ extended_seq p.stats + 1 + c

pub update_stats_lem :
    (n l c elapsed : ℕ) (f : RtpFrame) (s : ReceiverStatistics)
    → s.received_pkts ≡ n
    → c ≤ n + 1
    → s.base_seq + suc n + l ≡ extended_seq s + 1 + c
    → s.base_seq + suc n + l < 2147483648
    → ((update_stats elapsed f s).received_pkts ≡ suc n)
      × ((update_stats elapsed f s).lost_pkts ≡ l - c)
unfolding update_stats expected_of
update_stats_lem n l c elapsed f s received surplus balance small =
    let dropped : ℕ =
      ((s.cycles * 65536 + s.max_seq + 2 ^ 32 - s.base_seq + 1) % 2 ^ 32
        + 2 ^ 32
        - (s.received_pkts + 1) % 2 ^ 32)
      % 2 ^ 32 in
    (omega arith, (elim (Bool-cases (ltb l c)) [ inl e ↦ ground arith | inr e ↦ ground arith ]))

pub is_participant_known :
    (ssrc : ℕ) (r : Rtcp) (p : RtcpParticipant)
    → lookup ssrc r.participants ≡ some p
    → is_participant ssrc r ≡ true
unfolding is_participant
is_participant_known ssrc r p known = ground arith

pub update_participant_seq_known :
    (ssrc seq : ℕ) (r : Rtcp) (p p' : RtcpParticipant) (ret : RtpError)
    → lookup ssrc r.participants ≡ some p
    → update_seq seq p ≡ (ret, p')
    → update_participant_seq ssrc seq r
      ≡ (ret, record r { participants = insert ssrc p' r.participants })
unfolding update_participant_seq
update_participant_seq_known ssrc seq r p p' ret known updated = ground arith

pub update_session_statistics_known :
    (elapsed : ℕ) (f : RtpFrame) (r : Rtcp) (p : RtcpParticipant)
    → lookup f.header.ssrc r.participants ≡ some p
    → update_session_statistics elapsed f r ≡ record r {
      participants =
          insert f.header.ssrc (record p { stats = update_stats elapsed f p.stats }) r.participants;
    }
unfolding update_session_statistics
update_session_statistics_known elapsed f r p known = ground arith

pub handler_accepts :
    (ntp_now elapsed : ℕ) (f : RtpFrame) (r : Rtcp) (p p' : RtcpParticipant)
    → lookup f.header.ssrc r.participants ≡ some p
    → update_seq f.header.seq p ≡ (ok, p')
    → (r' : Rtcp) × (recv_packet_handler_common ntp_now elapsed f r ≡ (pkt_not_handled, r'))
      × (lookup f.header.ssrc r'.participants
          ≡ some (record p' { stats = update_stats elapsed f p'.stats }))
unfolding recv_packet_handler_common
handler_accepts ntp_now elapsed f r p p' known accepted =
    let ssrc : ℕ = f.header.ssrc in
    let p'' : RtcpParticipant = record p' { stats = update_stats elapsed f p'.stats } in
    let m = insert ssrc p' r.participants in
    let r1 : Rtcp = record r { participants = m } in
    (
      record r { participants = insert ssrc p'' m },
      ground (
        arith,
        is_participant_known ssrc r p known,
        update_participant_seq_known ssrc f.header.seq r p p' ok known accepted,
        update_session_statistics_known elapsed f r1 p' (lookup-insert_self ssrc p' r.participants),
      ),
      lookup-insert_self ssrc p'' m,
    )

pub update_stats-seq :
    (elapsed : ℕ) (f : RtpFrame) (s : ReceiverStatistics)
    → ((update_stats elapsed f s).max_seq ≡ s.max_seq)
      × ((update_stats elapsed f s).base_seq ≡ s.base_seq)
      × ((update_stats elapsed f s).cycles ≡ s.cycles)
unfolding update_stats
update_stats-seq elapsed f s = (refl, refl, refl)

-- The next frame of a tracked sender, g frames after the last one.
pub handler_step :
    (n l c g ntp_now elapsed : ℕ) (f : RtpFrame) (r : Rtcp) (p : RtcpParticipant)
    → lookup f.header.ssrc r.participants ≡ some p
    → Tracked n l c p
    → f.header.seq ≡ (p.stats.max_seq + suc g) % 65536
    → suc g < 3000
    → p.stats.base_seq + suc n + (l + g) < 2147483648
    → (r' : Rtcp) × (p' : RtcpParticipant) × (recv_packet_handler_common ntp_now elapsed f r
        ≡ (pkt_not_handled, r'))
      × (lookup f.header.ssrc r'.participants ≡ some p')
      × Tracked (suc n) (l + g) c p'
      × (p'.stats.lost_pkts ≡ l + g - c)
      × (p'.stats.base_seq ≡ p.stats.base_seq)
      × (p'.stats.max_seq ≡ f.header.seq)
handler_step n l c g ntp_now elapsed f r p known t next near small =
    let t_balance = t.balance in
    let (s, accepted, ahead, same, base, received) =
      update_seq_forward p (suc g) t.valid t.u16 (omega arith) near in
    let p1 : RtcpParticipant = record p { stats = s } in
    let taken : update_seq f.header.seq p ≡ (ok, p1) =
      ap (λ (x : ℕ). update_seq x p) next ∙ accepted in
    let (r', done, here) = handler_accepts ntp_now elapsed f r p p1 known taken in
    let t_received = t.received in
    let t_surplus = t.surplus in
    let (counted, lost) =
      update_stats_lem n (l + g) c elapsed f s (omega arith) (omega arith) (omega arith)
        (omega arith) in
    let (m, b, y) = update_stats-seq elapsed f s in
    let p2 : RtcpParticipant = record p { stats = update_stats elapsed f s } in
    let tracked : Tracked (suc n) (l + g) c p2 = record {
      valid = t.valid;
      u16 = omega arith;
      received = counted;
      surplus = omega arith;
      balance = omega arith;
    } in
    (r', p2, done, here, tracked, lost, b ∙ base, m ∙ same ∙ sym next)
