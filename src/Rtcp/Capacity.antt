-- ===== src/Rtcp/Capacity.antt =====
-- src/rtcp.cc: the table of participants under control packets.
use uvg_rtp.Prelude.{
  Bool-cases, Option-cases, length, ◌>>=◌, lookup, insert, erase, ℕ, suc, ◌+◌, ◌*◌, ◌/◌, ◌%◌, ◌≤◌,
  ◌≡◌, refl, ◌⊎◌, inl, inr, Bool, true, false, Option, none, some, List, [], ◌∷◌, arith,
}
use uvg_rtp.Util.{RtpError}
use uvg_rtp.Rtcp.Read.{
  RtcpHeader, SenderInfo, read_reports, read_ssrc, read_sender_info, read_chunks, read_app,
  read_bye,
}
use uvg_rtp.Rtcp.Participants.{
  Rtcp, zero_stats, is_participant, add_initial_participant, add_participant,
}
use uvg_rtp.Rtcp.Incoming.{
  ControlFrame, LastFrames, Control, see_participant, store_frame, keep_frame,
  handle_receiver_report_packet, set_lsr, handle_sender_report_packet, handle_sdes_packet,
  remove_participant, remove_participants, handle_bye_packet, handle_app_packet, handle_fb_packet,
}

-- The table has no more entries than participants were counted, and these are 31 at most.
unfoldable pub Capacity : Rtcp → Type 0
Capacity r = (length r.participants ≤ r.num_receivers) × (r.num_receivers ≤ 31)

module _ {V : Type 0} where
  length-insert : (k : ℕ) (v : V) (m : List (ℕ × V)) → length (insert k v m) ≤ suc (length m)
  unfolding insert
  length-insert k v [] = omega arith
  length-insert k v ((j, w) ∷ m) = ground (arith, length-insert k v m)

  length-insert_known :
      (k : ℕ) (v w : V) (m : List (ℕ × V)) → lookup k m ≡ some w → length (insert k v m) ≡ length m
  unfolding insert lookup
  length-insert_known k v w [] h = absurd cc
  length-insert_known k v w ((j, u) ∷ m) h = ground (arith, length-insert_known k v w m)

  length-erase : (k : ℕ) (m : List (ℕ × V)) → length (erase k m) ≤ length m
  unfolding erase
  length-erase k [] = omega arith
  length-erase k ((j, w) ∷ m) = ground (arith, length-erase k m)

List-cases : {A : Type 0} (xs : List A) → (xs ≡ []) ⊎ ((x : A) × (rest : List A) × (xs ≡ x ∷ rest))
List-cases [] = inl refl
List-cases (x ∷ xs) = inr (x, xs, refl)

pub add_participant-Capacity :
    (ssrc : ℕ) (r : Rtcp) → Capacity r → Capacity (add_participant ssrc r).1
unfolding Capacity add_participant
add_participant-Capacity ssrc r (few, most) =
    let fresh = length-insert ssrc (record { stats = zero_stats; probation = 0 }) r.participants in
    elim (List-cases r.initial_participants) [
      | inl e ↦ ground (arith, fresh)
      | inr (p, ps, e) ↦ ground (arith, length-insert ssrc p r.participants)
    ]

see_participant-Capacity :
    (ssrc : ℕ) (c : Control) → Capacity c.rtcp → Capacity (see_participant ssrc c).rtcp
unfolding see_participant
see_participant-Capacity ssrc c h = elim (Bool-cases (is_participant ssrc c.rtcp)) [
  | inl e ↦ rw e h
  | inr e ↦ rw e (add_participant-Capacity ssrc c.rtcp h)
]

-- A result, if there is one, keeps to it.
unfoldable pub Kept : Option (RtpError × Control) → Type 0
Kept none = Unit {0}
Kept (some (ret, c)) = Capacity c.rtcp

pub Kept-bind :
    {A : Type 0} (o : Option A) (f : A → Option (RtpError × Control))
    → ((a : A) → Kept (f a))
    → Kept (o >>= f)
unfolding Kept
Kept-bind none f h = tt
Kept-bind (some a) f h = h a

keep_frame-Kept :
    (hooked : Bool) (frame : ControlFrame) (ssrc : ℕ) (change : LastFrames → LastFrames)
    (c : Control)
    → Capacity c.rtcp
    → Kept (keep_frame hooked frame ssrc change c)
unfolding keep_frame store_frame Kept
keep_frame-Kept true frame ssrc change c h = h
keep_frame-Kept false frame ssrc change c h = elim (Bool-cases (is_participant ssrc c.rtcp)) [
  | inl e ↦ rw e h
  | inr e ↦ rw e tt
]

pub handle_receiver_report_packet-Kept :
    (buffer : List ℕ) (read_ptr packet_end : ℕ) (header : RtcpHeader) (c : Control)
    → Capacity c.rtcp
    → Kept (handle_receiver_report_packet buffer read_ptr packet_end header c)
unfolding handle_receiver_report_packet add_initial_participant Capacity
handle_receiver_report_packet-Kept buffer read_ptr packet_end header c h =
    Kept-bind (read_ssrc buffer read_ptr) _ (λ a.
      Kept-bind (read_reports buffer a.1 packet_end header.count) _ (λ b.
        keep_frame-Kept _ _ _ _ _ (elim (Bool-cases (is_participant a.0 c.rtcp)) [
          | inl e ↦ rw e h
          | inr e ↦ rw e (
              see_participant-Capacity a.0
                (record c { rtcp = add_initial_participant c.rtcp.clock_rate c.rtcp }) h)
        ])))

Kept-set_lsr :
    (ssrc : ℕ) (info : SenderInfo) (c : Control) (f : Control → Option (RtpError × Control))
    → Capacity c.rtcp
    → ((c' : Control) → Capacity c'.rtcp → Kept (f c'))
    → Kept (set_lsr ssrc info c >>= f)
unfolding set_lsr Capacity Kept
Kept-set_lsr ssrc info c f (few, most) h = elim (Option-cases (lookup ssrc c.rtcp.participants)) [
  | inl e ↦ rw e tt
  | inr (p, e) ↦ rw e (
      h _ (
        omega (
          arith,
          length-insert_known ssrc
              (record p {
                stats = record p.stats {
                  lsr = info.ntp_msw % 65536 * 65536 + info.ntp_lsw / 65536;
                };
              })
              p c.rtcp.participants e,
        ),
        most,
      ))
]

pub handle_sender_report_packet-Kept :
    (buffer : List ℕ) (read_ptr packet_end : ℕ) (header : RtcpHeader) (c : Control)
    → Capacity c.rtcp
    → Kept (handle_sender_report_packet buffer read_ptr packet_end header c)
unfolding handle_sender_report_packet
handle_sender_report_packet-Kept buffer read_ptr packet_end header c h =
    Kept-bind (read_ssrc buffer read_ptr) _ (λ a. Kept-bind (read_sender_info buffer a.1) _ (λ b.
      Kept-set_lsr a.0 b.0 (see_participant a.0 c) _ (see_participant-Capacity a.0 c h) (λ c' kept.
        Kept-bind (read_reports buffer b.1 packet_end header.count) _
          (λ r. keep_frame-Kept _ _ _ _ c' kept))))

pub handle_sdes_packet-Kept :
    (packet : List ℕ) (read_ptr packet_end : ℕ) (header : RtcpHeader) (sender_ssrc : ℕ)
    (c : Control)
    → Capacity c.rtcp
    → Kept (handle_sdes_packet packet read_ptr packet_end header sender_ssrc c)
unfolding handle_sdes_packet
handle_sdes_packet-Kept packet read_ptr packet_end header sender_ssrc c h =
    Kept-bind (read_chunks (suc packet_end) packet read_ptr packet_end) _
      (λ a. keep_frame-Kept _ _ _ _ _ (see_participant-Capacity sender_ssrc c h))

pub handle_app_packet-Kept :
    (packet : List ℕ) (read_ptr packet_end : ℕ) (header : RtcpHeader) (c : Control)
    → Capacity c.rtcp
    → Kept (handle_app_packet packet read_ptr packet_end header c)
unfolding handle_app_packet
handle_app_packet-Kept packet read_ptr packet_end header c h =
    Kept-bind (read_ssrc packet read_ptr) _ (λ a.
      Kept-bind (read_app packet a.1 packet_end) _
        (λ b. keep_frame-Kept _ _ _ _ _ (see_participant-Capacity a.0 c h)))

pub handle_fb_packet-Kept :
    (packet : List ℕ) (read_ptr : ℕ) (header : RtcpHeader) (c : Control)
    → Capacity c.rtcp
    → Kept (handle_fb_packet packet read_ptr header c)
unfolding handle_fb_packet Kept
handle_fb_packet-Kept packet read_ptr header c h = Kept-bind (read_ssrc packet read_ptr) _ (λ a.
    let kept = see_participant-Capacity a.0 c h in
    elim (Bool-cases (see_participant a.0 c).fb_hook) [ inl e ↦ rw e kept | inr e ↦ rw e kept ])

remove_participant-Capacity :
    (ssrc : ℕ) (c : Control) → Capacity c.rtcp → Capacity (remove_participant ssrc c).rtcp
unfolding remove_participant Capacity
remove_participant-Capacity ssrc c (few, most) = elim (Bool-cases (is_participant ssrc c.rtcp)) [
  | inl e ↦ rw e (omega (arith, length-erase ssrc c.rtcp.participants), most)
  | inr e ↦ rw e (few, most)
]

remove_participants-Capacity :
    (ssrcs : List ℕ) (c : Control) → Capacity c.rtcp → Capacity (remove_participants ssrcs c).rtcp
unfolding remove_participants
remove_participants-Capacity [] c h = h
remove_participants-Capacity (ssrc ∷ ssrcs) c h =
    remove_participants-Capacity ssrcs (remove_participant ssrc c)
      (remove_participant-Capacity ssrc c h)

pub handle_bye_packet-Kept :
    (packet : List ℕ) (read_ptr : ℕ) (header : RtcpHeader) (c : Control)
    → Capacity c.rtcp
    → Kept (handle_bye_packet packet read_ptr header c)
unfolding handle_bye_packet Kept Capacity
handle_bye_packet-Kept packet read_ptr header c h =
    Kept-bind (read_bye packet read_ptr header.count) _ (λ a. remove_participants-Capacity a.0 c h)
