-- ===== src/Rtcp/Steps.antt =====
-- src/rtcp.cc, handle_incoming_packet(): the walk over a compound packet comes to an end.
use uvg_rtp.Prelude.{
  ltb, leb, ◌==◌, if◌then◌else◌, leb→le, Bool-cases, ◌>>=◌, ℕ, zero, suc, ◌+◌, ◌-◌, ◌≤◌, ◌<◌, ◌≡◌,
  refl, ap, ◌⊎◌, inl, inr, Bool, true, false, not, ◌||◌, Option, none, some, List, arith,
}
use uvg_rtp.Util.{RtpError, ok, invalid_value, not_supported}
use uvg_rtp.Rtcp.Read.{rtcp_length_in_bytes, read_rtcp_header}
use uvg_rtp.Rtcp.Incoming.{Control, is_ok}
use uvg_rtp.Rtcp.Compound.{
  handle_by_type, reset_timeout, Walk, after_handler, walk_packet, walk_packets, ended, handled,
}
use uvg_rtp.Rtcp.Walk.{go_on_walk}

-- A packet that was handled has the octets of a header.
Advances : Option Walk → Type 0
Advances none = Unit {0}
Advances (some (ended ret c)) = Unit {0}
Advances (some (handled size c)) = 4 ≤ size

Advances-if :
    (b : Bool) (x y : Option Walk) → Advances x → Advances y → Advances (if b then x else y)
Advances-if true x y hx hy = hx
Advances-if false x y hx hy = hy

Advances-ended : (ret : RtpError) (c : Control) → Advances (some (ended ret c))
unfolding Advances
Advances-ended ret c = tt

Advances-bind :
    {A : Type 0} (o : Option A) (f : A → Option Walk)
    → ((a : A) → Advances (f a))
    → Advances (o >>= f)
unfolding Advances
Advances-bind none f h = tt
Advances-bind (some a) f h = h a

Advances-after_handler :
    (size : ℕ) (done : RtpError × Control) → 4 ≤ size → Advances (some (after_handler size done))
unfolding Advances after_handler
Advances-after_handler size (ret, c) h = elim (Bool-cases (is_ok ret)) [
  | inl e ↦ rw e h
  | inr e ↦ rw e tt
]

size-le : (len : ℕ) → 4 ≤ rtcp_length_in_bytes len
unfolding rtcp_length_in_bytes
size-le len = omega arith

walk_packet-Advances :
    (buffer : List ℕ) (read_ptr remaining sender_ssrc : ℕ) (c : Control)
    → Advances (walk_packet buffer read_ptr remaining sender_ssrc c)
unfolding walk_packet
walk_packet-Advances buffer read_ptr remaining sender_ssrc c =
    Advances-if (ltb remaining 4) _ _ (Advances-ended invalid_value c) (
      Advances-bind (read_rtcp_header buffer read_ptr) _ (λ a.
        let size = rtcp_length_in_bytes a.0.length in
        let c' = reset_timeout sender_ssrc c in
        Advances-if (not (a.0.version == 2)) _ _ (Advances-ended invalid_value c) (
          Advances-if (ltb remaining size) _ _ (Advances-ended not_supported c) (
            Advances-if (not (a.0.padding == 0)) _ _ (Advances-ended invalid_value c) (
              Advances-if (ltb 204 a.0.pkt_type || ltb a.0.pkt_type 200) _ _
                (Advances-ended invalid_value c')
                (Advances-bind (handle_by_type buffer a.1 (a.1 - 4 + size) a.0 sender_ssrc c') _
                  (λ done. Advances-after_handler size done (size-le a.0.length))))))))

same_end :
    (f g : ℕ) (buffer : List ℕ) (read_ptr remaining sender_ssrc : ℕ) (o : Option Walk)
    → ((p r : ℕ) (c : Control)
        → r + 4 ≤ remaining ⊎ (r ≡ 0)
        → walk_packets f buffer p r sender_ssrc c ≡ walk_packets g buffer p r sender_ssrc c)
    → Advances o
    → o >>= go_on_walk f buffer read_ptr remaining sender_ssrc
      ≡ o >>= go_on_walk g buffer read_ptr remaining sender_ssrc
unfolding Advances
same_end f g buffer read_ptr remaining sender_ssrc none rest h = refl
same_end f g buffer read_ptr remaining sender_ssrc (some (ended ret c)) rest h = refl
same_end f g buffer read_ptr remaining sender_ssrc (some (handled size c)) rest h =
    rest (read_ptr + size) (remaining - size) c (elim (Bool-cases (leb size remaining)) [
      | inl e ↦ inl (let fits = leb→le size remaining e in omega arith)
      | inr e ↦ inr (let over : remaining < size = ground arith in omega arith)
    ])

-- The walk has as many rounds as there are octets at most: with that much fuel or more, its outcome
-- does not depend on the fuel.
pub walk_packets_fuel :
    (fuel more : ℕ) (buffer : List ℕ) (read_ptr remaining sender_ssrc : ℕ) (c : Control)
    → remaining ≤ fuel
    → remaining ≤ more
    → walk_packets fuel buffer read_ptr remaining sender_ssrc c
      ≡ walk_packets more buffer read_ptr remaining sender_ssrc c
unfolding walk_packets
walk_packets_fuel zero zero buffer read_ptr remaining sender_ssrc c h k = refl
walk_packets_fuel zero (suc more) buffer read_ptr remaining sender_ssrc c h k = ground arith
walk_packets_fuel (suc fuel) zero buffer read_ptr remaining sender_ssrc c h k = ground arith
walk_packets_fuel (suc fuel) (suc more) buffer read_ptr remaining sender_ssrc c h k =
    ap (λ (rest : Option (RtpError × Control)). if remaining == 0 then some (ok, c) else rest)
      (same_end fuel more buffer read_ptr remaining sender_ssrc
        (walk_packet buffer read_ptr remaining sender_ssrc c)
        (λ p r c' s.
          let below : (r ≤ fuel) × (r ≤ more) = elim s [
            | inl l ↦ (omega arith, omega arith)
            | inr l ↦ (omega arith, omega arith)
          ] in
          walk_packets_fuel fuel more buffer p r sender_ssrc c' below.0 below.1)
        (walk_packet-Advances buffer read_ptr remaining sender_ssrc c))
