-- ===== src/Rtcp/Walk.antt =====
-- src/rtcp.cc, handle_incoming_packet(): what holds of every walk over a compound packet.
use uvg_rtp.Prelude.{
  ltb, ◌==◌, if◌then◌else◌, Bool-cases, ◌>>=◌, read32, ℕ, zero, suc, ◌+◌, ◌-◌, ◌≡◌, inl, inr, Bool,
  true, false, not, ◌||◌, Option, none, some, List,
}
use mathlib.Core.Path.{subst}
use uvg_rtp.Util.{RtpError, ok, invalid_value, not_supported}
use uvg_rtp.Rtcp.Read.{RtcpHeader, rtcp_length_in_bytes, read_rtcp_header}
use uvg_rtp.Rtcp.Incoming.{Control, update_rtcp_bandwidth, update_avg_rtcp_size, is_ok}
use uvg_rtp.Rtcp.Compound.{
  handle_by_type, reset_timeout, Walk, after_handler, walk_packet, walk_packets, walk_decrypted,
  handle_incoming_packet, ended, handled,
}
use uvg_rtp.Rtcp.Capacity.{
  Capacity, Kept, Kept-bind, handle_receiver_report_packet-Kept, handle_sender_report_packet-Kept,
  handle_sdes_packet-Kept, handle_app_packet-Kept, handle_fb_packet-Kept, handle_bye_packet-Kept,
}

Kept-some : (ret : RtpError) (c : Control) → Capacity c.rtcp → Kept (some (ret, c))
unfolding Kept
Kept-some ret c h = h

Kept-if :
    (b : Bool) (x y : Option (RtpError × Control)) → Kept x → Kept y → Kept (if b then x else y)
Kept-if true x y hx hy = hx
Kept-if false x y hx hy = hy

handle_by_type-Kept :
    (buffer : List ℕ) (read_ptr packet_end : ℕ) (header : RtcpHeader) (sender_ssrc : ℕ)
    (c : Control)
    → Capacity c.rtcp
    → Kept (handle_by_type buffer read_ptr packet_end header sender_ssrc c)
unfolding handle_by_type
handle_by_type-Kept buffer read_ptr packet_end header sender_ssrc c h =
    Kept-if _ _ _ (handle_sender_report_packet-Kept buffer read_ptr packet_end header c h) (
      Kept-if _ _ _ (handle_receiver_report_packet-Kept buffer read_ptr packet_end header c h) (
        Kept-if _ _ _ (handle_sdes_packet-Kept buffer read_ptr packet_end header sender_ssrc c h) (
          Kept-if _ _ _ (handle_bye_packet-Kept buffer read_ptr header c h) (
            Kept-if _ _ _ (handle_app_packet-Kept buffer read_ptr packet_end header c h) (
              Kept-if _ _ _ (handle_fb_packet-Kept buffer read_ptr header c h)
                (Kept-some invalid_value c h))))))

Kept-none : Kept none
unfolding Kept
Kept-none = tt

reset_timeout-Capacity :
    (sender_ssrc : ℕ) (c : Control) → Capacity c.rtcp → Capacity (reset_timeout sender_ssrc c).rtcp
unfolding reset_timeout Capacity
reset_timeout-Capacity sender_ssrc c h = h

sizes-Capacity :
    (size : ℕ) (c : Control)
    → Capacity c.rtcp
    → Capacity (update_avg_rtcp_size size (update_rtcp_bandwidth size c)).rtcp
unfolding update_avg_rtcp_size update_rtcp_bandwidth
sizes-Capacity size c h = h

-- The same of a round.
KeptWalk : Option Walk → Type 0
KeptWalk none = Unit {0}
KeptWalk (some (ended ret c)) = Capacity c.rtcp
KeptWalk (some (handled size c)) = Capacity c.rtcp

KeptWalk-ended : (ret : RtpError) (c : Control) → Capacity c.rtcp → KeptWalk (some (ended ret c))
unfolding KeptWalk
KeptWalk-ended ret c h = h

KeptWalk-if :
    (b : Bool) (x y : Option Walk) → KeptWalk x → KeptWalk y → KeptWalk (if b then x else y)
KeptWalk-if true x y hx hy = hx
KeptWalk-if false x y hx hy = hy

KeptWalk-bind :
    {A : Type 0} (o : Option A) (f : A → Option Walk)
    → ((a : A) → KeptWalk (f a))
    → KeptWalk (o >>= f)
unfolding KeptWalk
KeptWalk-bind none f h = tt
KeptWalk-bind (some a) f h = h a

KeptWalk-after_handler :
    (size : ℕ) (o : Option (RtpError × Control))
    → Kept o
    → KeptWalk (o >>= (λ done. some (after_handler size done)))
unfolding KeptWalk Kept after_handler
KeptWalk-after_handler size none h = tt
KeptWalk-after_handler size (some (ret, c)) h = elim (Bool-cases (is_ok ret)) [
  | inl e ↦ rw e h
  | inr e ↦ rw e h
]

walk_packet-KeptWalk :
    (buffer : List ℕ) (read_ptr remaining sender_ssrc : ℕ) (c : Control)
    → Capacity c.rtcp
    → KeptWalk (walk_packet buffer read_ptr remaining sender_ssrc c)
unfolding walk_packet
walk_packet-KeptWalk buffer read_ptr remaining sender_ssrc c h =
    let h' = reset_timeout-Capacity sender_ssrc c h in
    KeptWalk-if _ _ _ (KeptWalk-ended invalid_value c h) (
      KeptWalk-bind (read_rtcp_header buffer read_ptr) _ (λ a.
        let size = rtcp_length_in_bytes a.0.length in
        KeptWalk-if (not (a.0.version == 2)) _ _ (KeptWalk-ended invalid_value c h) (
          KeptWalk-if (ltb remaining size) _ _ (KeptWalk-ended not_supported c h) (
            KeptWalk-if (not (a.0.padding == 0)) _ _ (KeptWalk-ended invalid_value c h) (
              KeptWalk-if (ltb 204 a.0.pkt_type || ltb a.0.pkt_type 200) _ _
                (KeptWalk-ended invalid_value (reset_timeout sender_ssrc c) h')
                (KeptWalk-after_handler size _ (
                  handle_by_type-Kept buffer a.1 (a.1 - 4 + size) a.0 sender_ssrc
                    (reset_timeout sender_ssrc c) h')))))))

-- What a walk goes on with.
abbrev pub go_on_walk : ℕ → List ℕ → ℕ → ℕ → ℕ → Walk → Option (RtpError × Control)
go_on_walk fuel buffer read_ptr remaining sender_ssrc (ended ret c) = some (ret, c)
go_on_walk fuel buffer read_ptr remaining sender_ssrc (handled size c) =
    walk_packets fuel buffer (read_ptr + size) (remaining - size) sender_ssrc c

Kept-go_on_walk :
    (fuel : ℕ) (buffer : List ℕ) (read_ptr remaining sender_ssrc : ℕ) (o : Option Walk)
    → ((p r : ℕ) (c : Control)
        → Capacity c.rtcp
        → Kept (walk_packets fuel buffer p r sender_ssrc c))
    → KeptWalk o
    → Kept (o >>= go_on_walk fuel buffer read_ptr remaining sender_ssrc)
unfolding KeptWalk Kept
Kept-go_on_walk fuel buffer read_ptr remaining sender_ssrc none rest h = tt
Kept-go_on_walk fuel buffer read_ptr remaining sender_ssrc (some (ended ret c)) rest h = h
Kept-go_on_walk fuel buffer read_ptr remaining sender_ssrc (some (handled size c)) rest h =
    rest (read_ptr + size) (remaining - size) c h

walk_packets-Kept :
    (fuel : ℕ) (buffer : List ℕ) (read_ptr remaining sender_ssrc : ℕ) (c : Control)
    → Capacity c.rtcp
    → Kept (walk_packets fuel buffer read_ptr remaining sender_ssrc c)
unfolding walk_packets
walk_packets-Kept zero buffer read_ptr remaining sender_ssrc c h =
    Kept-if (remaining == 0) _ _ (Kept-some ok c h) Kept-none
walk_packets-Kept (suc fuel) buffer read_ptr remaining sender_ssrc c h =
    Kept-if (remaining == 0) _ _ (Kept-some ok c h) (
      Kept-go_on_walk fuel buffer read_ptr remaining sender_ssrc
        (walk_packet buffer read_ptr remaining sender_ssrc c)
        (λ p r c' h'. walk_packets-Kept fuel buffer p r sender_ssrc c' h')
        (walk_packet-KeptWalk buffer read_ptr remaining sender_ssrc c h))

Kept-walk_decrypted :
    (size sender_ssrc : ℕ) (d : RtpError × List ℕ) (c : Control)
    → Capacity c.rtcp
    → Kept (walk_decrypted size sender_ssrc d c)
unfolding walk_decrypted
Kept-walk_decrypted size sender_ssrc (ret, buffer) c h =
    Kept-if (is_ok ret) _ _ (walk_packets-Kept size buffer 0 size sender_ssrc c h)
      (Kept-some ret c h)

handle_incoming_packet-Kept :
    (srtcp : Option (ℕ → List ℕ → RtpError × List ℕ)) (buffer : List ℕ) (c : Control)
    → Capacity c.rtcp
    → Kept (handle_incoming_packet srtcp buffer c)
unfolding handle_incoming_packet
handle_incoming_packet-Kept none buffer c h = Kept-if _ _ _ (Kept-some invalid_value c h) (
    Kept-if _ _ _
      (Kept-bind (read32 buffer 4) _
        (λ a. walk_packets-Kept _ buffer 0 _ a _ (sizes-Capacity _ c h)))
      (walk_packets-Kept _ buffer 0 _ 0 _ (sizes-Capacity _ c h)))
handle_incoming_packet-Kept (some decrypt) buffer c h =
    Kept-if _ _ _ (Kept-some invalid_value c h) (
      Kept-if _ _ _
        (Kept-bind (read32 buffer 4) _ (λ a. Kept-walk_decrypted _ a _ _ (sizes-Capacity _ c h)))
        (walk_packets-Kept _ buffer 0 _ 0 _ (sizes-Capacity _ c h)))

-- Whatever a datagram holds: if before it the table of participants had no more entries than
-- participants were counted and these were 31 at most, then so it is afterwards, if the walk has an
-- outcome.
pub handle_incoming_packet-Capacity :
    (srtcp : Option (ℕ → List ℕ → RtpError × List ℕ)) (buffer : List ℕ) (c c' : Control)
    (ret : RtpError)
    → Capacity c.rtcp
    → handle_incoming_packet srtcp buffer c ≡ some (ret, c')
    → Capacity c'.rtcp
unfolding Kept
handle_incoming_packet-Capacity srtcp buffer c c' ret h e =
    subst Kept e (handle_incoming_packet-Kept srtcp buffer c h)
