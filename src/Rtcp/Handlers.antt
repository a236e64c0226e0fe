-- ===== src/Rtcp/Handlers.antt =====
-- src/rtcp.cc: what comes of single control packets.
use uvg_rtp.Prelude.{
  Option-cases, length, length-append, drop, read32, put32, take_exact, take_exact-append,
  drop-append, read32-put32, sub64, read32-start, lookup, ℕ, ◌+◌, ◌-◌, ◌%◌, ◌^◌, ◌<◌, ◌≡◌, refl,
  sym, ap, ◌∙◌, inl, inr, true, none, some, List, [], ◌∷◌, ◌++◌, append-nil, append_assoc, arith,
}
use uvg_rtp.Util.{ok}
use uvg_rtp.Rtcp.Read.{RtcpHeader, SenderInfo, read_ssrc, read_sender_info, read_app}
use uvg_rtp.Rtcp.Participants.{is_participant, add_participant}
use uvg_rtp.Rtcp.Incoming.{
  Control, see_participant, keep_frame, set_lsr, handle_sender_report_packet, handle_app_packet,
  app_packet,
}

set_lsr_full :
    (ssrc : ℕ) (info : SenderInfo) (c : Control)
    → lookup ssrc c.rtcp.participants ≡ none
    → c.rtcp.num_receivers ≡ 31
    → set_lsr ssrc info (see_participant ssrc c) ≡ none
unfolding set_lsr see_participant add_participant is_participant
set_lsr_full ssrc info c unknown full = ground arith

-- When 31 participants have been counted, those that have left included, a sender report from a sender
-- that is not in the table has no outcome: the entry of the sender, a null pointer, is written to.
pub handle_sender_report_packet_full :
    (buffer : List ℕ) (read_ptr packet_end p ssrc : ℕ) (header : RtcpHeader) (c : Control)
    → read_ssrc buffer read_ptr ≡ some (ssrc, p)
    → lookup ssrc c.rtcp.participants ≡ none
    → c.rtcp.num_receivers ≡ 31
    → handle_sender_report_packet buffer read_ptr packet_end header c ≡ none
unfolding handle_sender_report_packet
handle_sender_report_packet_full buffer read_ptr packet_end p ssrc header c e unknown full =
    elim (Option-cases (read_sender_info buffer p)) [
      | inl i ↦ rw (e, i) refl
      | inr (info, i) ↦ rw (e, i, set_lsr_full ssrc info.0 c unknown full) refl
    ]

take_exact-here :
    (front xs rest : List ℕ) (i : ℕ)
    → i ≡ length front
    → take_exact (length xs) (drop i (front ++ (xs ++ rest))) ≡ some xs
take_exact-here front xs rest i h =
    ap (λ (n : ℕ). take_exact (length xs) (drop n (front ++ (xs ++ rest)))) h
    ∙ ap (take_exact (length xs)) (drop-append front (xs ++ rest))
    ∙ take_exact-append xs rest

-- The fields of an APP packet, as they stand after the header.
read_app-fields :
    (front name payload : List ℕ) (packet_end : ℕ)
    → length name ≡ 4
    → packet_end ≡ length front + 4 + length payload
    → packet_end < 2 ^ 64
    → read_app (front ++ (name ++ payload)) (length front) packet_end
      ≡ some (name, payload, length payload)
unfolding read_app sub64
read_app-fields front name payload packet_end four whole small =
    let buffer = front ++ (name ++ payload) in
    let e1 : take_exact 4 (drop (length front) buffer) ≡ some name =
      ap (λ (n : ℕ). take_exact n (drop (length front) buffer)) (sym four)
      ∙ take_exact-here front name payload (length front) refl in
    let e2 : take_exact (length payload) (drop (length front + 4) buffer) ≡ some payload =
      ap (λ (b : List ℕ). take_exact (length payload) (drop (length front + 4) b))
        (sym (append_assoc front name payload)
          ∙ ap (λ (x : List ℕ). (front ++ name) ++ x) (sym (append-nil payload)))
      ∙ take_exact-here (front ++ name) payload [] (length front + 4)
          (omega (arith, length-append front name, four)) in
    let e3 : (packet_end + 2 ^ 64 - (length front + 4)) % 2 ^ 64 ≡ length payload =
      omega (arith, whole, small) in
    rw (e1, e3, e2) refl

-- An APP packet of a participant.
pub handle_app_packet-fields :
    (front name payload : List ℕ) (ssrc packet_end : ℕ) (header : RtcpHeader) (c : Control)
    → ssrc < 4294967296
    → length name ≡ 4
    → packet_end ≡ length front + 8 + length payload
    → packet_end < 2 ^ 64
    → is_participant ssrc c.rtcp ≡ true
    → c.app_hook ≡ true
    → handle_app_packet
        (front ++ (put32 ssrc ++ (name ++ payload)))
        (length front)
        packet_end
        header
        c
      ≡ some (
        ok,
        record c {
          handed =
              c.handed
              ++ (app_packet (record {
                header = header;
                ssrc = ssrc;
                name = name;
                payload_len = length payload;
                payload = payload;
              })
                  ∷ []);
        },
      )
unfolding handle_app_packet read_ssrc see_participant keep_frame
handle_app_packet-fields front name payload ssrc packet_end header c u32 four whole small known
      hook =
    let buffer = front ++ (put32 ssrc ++ (name ++ payload)) in
    let e1 : read32 buffer (length front) ≡ some ssrc =
      read32-start front (put32 ssrc ++ (name ++ payload))
      ∙ read32-put32 ssrc (name ++ payload) u32 in
    let e2 : read_app buffer (length front + 4) packet_end ≡ some (name, payload, length payload) =
      (λ i.
        read_app (sym (append_assoc front (put32 ssrc) (name ++ payload)) i)
          (sym (length-append front (put32 ssrc)) i) packet_end)
      ∙ read_app-fields (front ++ put32 ssrc) name payload packet_end four
          (omega (arith, length-append front (put32 ssrc), whole)) small in
    rw (e1, e2, known, hook) refl
