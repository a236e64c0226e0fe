-- ===== src/Rtcp/Losses.antt =====
-- The frames of one sender, from its first: probation, and the count of lost packets afterwards.
use uvg_rtp.Prelude.{
  ℕ, suc, ◌+◌, ◌-◌, ◌%◌, ◌<◌, ◌≡◌, refl, ap, ◌∙◌, arith, some, List, [], ◌∷◌, length, replicate,
  lookup,
}
use uvg_rtp.Util.{RtpError, pkt_not_handled}
use uvg_rtp.Frame.{RtpFrame}
use uvg_rtp.Rtcp.Participants.{Rtcp, RtcpParticipant, recv_packet_handler_common}
use uvg_rtp.Rtcp.Sequence.{Tracked, handler_step}

-- The handler on one frame after another, at one reading of the clocks.
unfoldable pub receive_frames : ℕ → ℕ → List RtpFrame → Rtcp → List RtpError × Rtcp
receive_frames ntp_now elapsed [] r = ([], r)
receive_frames ntp_now elapsed (f ∷ fs) r =
    let (ret, r') = recv_packet_handler_common ntp_now elapsed f r in
    let (rets, last) = receive_frames ntp_now elapsed fs r' in (ret ∷ rets, last)

-- Frames of one sender whose sequence numbers, from m on, skip the given numbers of packets, each
-- fewer than MAX_DROPOUT.
abbrev pub Follows : ℕ → ℕ → List RtpFrame → List ℕ → Type 0
Follows ssrc m [] [] = Unit {0}
Follows ssrc m [] (g ∷ gs) = ⊥
Follows ssrc m (f ∷ fs) [] = ⊥
Follows ssrc m (f ∷ fs) (g ∷ gs) =
    (f.header.ssrc ≡ ssrc)
    × (f.header.seq ≡ (m + suc g) % 65536)
    × (suc g < 3000)
    × Follows ssrc f.header.seq fs gs

abbrev pub sum : List ℕ → ℕ
sum [] = 0
sum (g ∷ gs) = g + sum gs

pub receive_frames-cons :
    (ntp_now elapsed : ℕ) (f : RtpFrame) (fs : List RtpFrame) (r r' r'' : Rtcp) (ret : RtpError)
    (rets : List RtpError)
    → recv_packet_handler_common ntp_now elapsed f r ≡ (ret, r')
    → receive_frames ntp_now elapsed fs r' ≡ (rets, r'')
    → receive_frames ntp_now elapsed (f ∷ fs) r ≡ (ret ∷ rets, r'')
unfolding receive_frames
receive_frames-cons ntp_now elapsed f fs r r' r'' ret rets one more =
    ap
      (λ (x : RtpError × Rtcp). (
        x.0 ∷ (receive_frames ntp_now elapsed fs x.1).0,
        (receive_frames ntp_now elapsed fs x.1).1,
      ))
      one
    ∙ ap (λ (x : List RtpError × Rtcp). (ret ∷ x.0, x.1)) more

same-Tracked :
    {n n' l l' : ℕ} (c : ℕ) (p : RtcpParticipant)
    → n ≡ n'
    → l ≡ l'
    → Tracked n l c p
    → Tracked n' l' c p
same-Tracked c p e d t =
    let b = t.balance in
    let s = t.surplus in
    record {
      valid = t.valid;
      u16 = t.u16;
      received = t.received ∙ e;
      surplus = omega arith;
      balance = omega arith;
    }

-- Frames of a tracked sender: all are passed on, and the count of lost packets grows by the skipped.
pub receive_frames-Tracked :
    (n l c ntp_now elapsed ssrc : ℕ) (fs : List RtpFrame) (gs : List ℕ) (r : Rtcp)
    (p : RtcpParticipant)
    → lookup ssrc r.participants ≡ some p
    → Tracked n l c p
    → p.stats.lost_pkts ≡ l - c
    → Follows ssrc p.stats.max_seq fs gs
    → p.stats.base_seq + n + length fs + l + sum gs < 2147483648
    → (r' : Rtcp) × (p' : RtcpParticipant) × (receive_frames ntp_now elapsed fs r
        ≡ (replicate (length fs) pkt_not_handled, r'))
      × (lookup ssrc r'.participants ≡ some p')
      × Tracked (n + length fs) (l + sum gs) c p'
      × (p'.stats.lost_pkts ≡ l + sum gs - c)
unfolding receive_frames
receive_frames-Tracked n l c ntp_now elapsed ssrc [] [] r p known t lost follows small =
    (r, p, refl, known, same-Tracked c p (omega arith) (omega arith) t, lost ∙ omega arith)
receive_frames-Tracked n l c ntp_now elapsed ssrc [] (g ∷ gs) r p known t lost follows small =
    absurd follows
receive_frames-Tracked n l c ntp_now elapsed ssrc (f ∷ fs) [] r p known t lost follows small =
    absurd follows
receive_frames-Tracked n l c ntp_now elapsed ssrc (f ∷ fs) (g ∷ gs) r p known t lost
      (same, next, near, follows) small =
    let (r1, p1, done, here, t1, lost1, base1, max1) =
      handler_step n l c g ntp_now elapsed f r p (rw same known) t next near (omega arith) in
    let (r2, p2, all, there, t2, lost2) =
      receive_frames-Tracked (suc n) (l + g) c ntp_now elapsed ssrc fs gs r1 p1 (rw same at here) t1
        lost1 (rw max1 follows) (omega arith) in
    (
      r2,
      p2,
      receive_frames-cons ntp_now elapsed f fs r r1 r2 pkt_not_handled _ done all,
      there,
      same-Tracked c p2 (omega arith) (omega arith) t2,
      lost2 ∙ omega arith,
    )
