-- ===== src/Rtcp/Loss.antt =====
-- The count of lost packets of a sender, from its first frame on.
use uvg_rtp.Prelude.{
  ℕ, ◌+◌, ◌-◌, ◌<◌, ◌≡◌, ◌≢◌, refl, sym, ap, ◌∙◌, arith, none, some, List, ◌∷◌, length, replicate,
  lookup,
}
use uvg_rtp.Util.{ok, pkt_not_handled}
use uvg_rtp.Frame.{RtpFrame}
use uvg_rtp.Rtcp.Participants.{
  Rtcp, RtcpParticipant, update_stats, recv_packet_handler_common, max_supported_participants,
}
use uvg_rtp.Rtcp.Sequence.{Tracked, handler_accepts, update_stats_lem, update_stats-seq}
use uvg_rtp.Rtcp.Losses.{receive_frames, Follows, sum, receive_frames-cons, receive_frames-Tracked}
use uvg_rtp.Rtcp.Admission.{
  new_participant, first_frame, handler_waits, update_seq_waits, update_seq_validates,
}

-- After the three frames: two were counted, one of them before the sequence that is expected.
admitted :
    (ntp_now elapsed : ℕ) (f g h : RtpFrame) (r : Rtcp)
    → lookup f.header.ssrc r.participants ≡ none
    → r.num_receivers ≢ max_supported_participants
    → g.header.ssrc ≡ f.header.ssrc
    → h.header.ssrc ≡ f.header.ssrc
    → g.header.seq ≡ f.header.seq + 1
    → h.header.seq ≡ g.header.seq + 1
    → h.header.seq < 65536
    → (r1 r2 r3 : Rtcp) × (p : RtcpParticipant) × (recv_packet_handler_common ntp_now elapsed f r
        ≡ (pkt_not_handled, r1))
      × (recv_packet_handler_common ntp_now elapsed g r1 ≡ (ok, r2))
      × (recv_packet_handler_common ntp_now elapsed h r2 ≡ (pkt_not_handled, r3))
      × (lookup f.header.ssrc r3.participants ≡ some p)
      × Tracked 2 0 1 p
      × (p.stats.lost_pkts ≡ 0)
      × (p.stats.max_seq ≡ h.header.seq)
      × (p.stats.base_seq ≡ h.header.seq)
admitted ntp_now elapsed f g h r unknown room same_g same_h next_g next_h u16 =
    let p0 : RtcpParticipant = new_participant ntp_now f r in
    let p1 : RtcpParticipant = record p0 { stats = update_stats elapsed f p0.stats } in
    let (m1, b1, c1) = update_stats-seq elapsed f p0.stats in
    let (n1, l1) =
      update_stats_lem 0 0 0 elapsed f p0.stats refl (omega arith) (omega arith) (omega arith) in
    let (r1, done1, here1) = first_frame ntp_now elapsed f r unknown room in
    let p2 : RtcpParticipant = record p1 {
      probation = 1;
      stats = record p1.stats { max_seq = g.header.seq };
    } in
    let (r2, done2, here2) =
      handler_waits ntp_now elapsed g r1 p1 p2 (rw same_g here1)
        (update_seq_waits p1 g.header.seq refl (omega arith)) in
    let p3 : RtcpParticipant = record p2 {
      probation = 0;
      stats = record p2.stats { base_seq = h.header.seq; max_seq = h.header.seq; bad_seq = 65537 };
    } in
    let known2 : lookup h.header.ssrc r2.participants ≡ some p2 =
      ap (λ (x : ℕ). lookup x r2.participants) (same_h ∙ sym same_g) ∙ here2 in
    let (r3, done3, here3) =
      handler_accepts ntp_now elapsed h r2 p2 p3 known2
        (update_seq_validates p2 h.header.seq refl next_h) in
    let (m3, b3, c3) = update_stats-seq elapsed h p3.stats in
    let (n3, l3) =
      update_stats_lem 1 0 1 elapsed h p3.stats n1 (omega arith) (omega (arith, c1))
        (omega arith) in
    let p4 : RtcpParticipant = record p3 { stats = update_stats elapsed h p3.stats } in
    let t : Tracked 2 0 1 p4 = record {
      valid = refl;
      u16 = omega arith;
      received = n3;
      surplus = omega arith;
      balance = omega (arith, c1);
    } in
    (
      r1,
      r2,
      r3,
      p4,
      done1,
      done2,
      done3,
      ap (λ (x : ℕ). lookup x r3.participants) (sym same_h) ∙ here3,
      t,
      l3,
      m3,
      b3,
    )

-- A sender that was not known and for whom there is room, whose first three frames are in sequence
-- within the 16-bit range and whose later frames each skip fewer than 2999 packets (over any number of
-- wraps, below 2^31 in all): the first frame is counted and passed on, the second is held back, all
-- later ones are counted and passed on, and at the end the count of lost packets is the number of
-- packets skipped less one, or 0.
pub lost_pkts-receive_frames :
    (ntp_now elapsed : ℕ) (f g h : RtpFrame) (fs : List RtpFrame) (gs : List ℕ) (r : Rtcp)
    → lookup f.header.ssrc r.participants ≡ none
    → r.num_receivers ≢ max_supported_participants
    → g.header.ssrc ≡ f.header.ssrc
    → h.header.ssrc ≡ f.header.ssrc
    → g.header.seq ≡ f.header.seq + 1
    → h.header.seq ≡ g.header.seq + 1
    → h.header.seq < 65536
    → Follows f.header.ssrc h.header.seq fs gs
    → h.header.seq + 2 + length fs + sum gs < 2147483648
    → (r' : Rtcp) × (p : RtcpParticipant) × (receive_frames ntp_now elapsed (f ∷ g ∷ h ∷ fs) r
        ≡ (pkt_not_handled ∷ ok ∷ pkt_not_handled ∷ replicate (length fs) pkt_not_handled, r'))
      × (lookup f.header.ssrc r'.participants ≡ some p)
      × (p.stats.received_pkts ≡ 2 + length fs)
      × (p.stats.lost_pkts ≡ sum gs - 1)
lost_pkts-receive_frames ntp_now elapsed f g h fs gs r unknown room same_g same_h next_g next_h u16
      follows small =
    let (r1, r2, r3, p3, done1, done2, done3, here, t, none_lost, max3, base3) =
      admitted ntp_now elapsed f g h r unknown room same_g same_h next_g next_h u16 in
    let (r4, p4, all, there, t4, lost4) =
      receive_frames-Tracked 2 0 1 ntp_now elapsed f.header.ssrc fs gs r3 p3 here t none_lost
        (rw max3 follows) (omega arith) in
    (
      r4,
      p4,
      receive_frames-cons ntp_now elapsed f _ r r1 r4 _ _ done1 (
          receive_frames-cons ntp_now elapsed g _ r1 r2 r4 _ _ done2
            (receive_frames-cons ntp_now elapsed h fs r2 r3 r4 _ _ done3 all)),
      there,
      t4.received,
      lost4 ∙ omega arith,
    )
