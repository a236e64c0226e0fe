-- ===== src/Rtcp/Room.antt =====
-- src/rtcp.cc: the room that generate_report() makes for what it writes.
use uvg_rtp.Prelude.{
  ◌==◌, ltb, if◌then◌else◌, Bool-cases, length, flag_set, ℕ, suc, ◌+◌, ◌-◌, ◌*◌, ◌%◌, ◌^◌, ◌≤◌, ◌<◌,
  ◌≡◌, refl, sym, ap, ◌∙◌, ◌⊎◌, inl, inr, Bool, true, false, none, some, List, [], ◌∷◌, append-nil,
  arith,
}
use uvg_rtp.Util.{ok, generic_error, rce_srtp}
use uvg_rtp.Rtcp.Packets.{
  get_rr_packet_size, get_sr_packet_size, get_sdes_packet_size, get_bye_packet_size,
}
use uvg_rtp.Rtcp.Participants.{Participants}
use uvg_rtp.Rtcp.Report.{
  start_clock, Reporter, ReportEnv, count_reports, sends_sr, size_of_compound_packet, write_blocks,
  after_report, write_report, apps_size, in_buffer, build_report,
}
use uvg_rtp.Rtcp.Named.{get_sdes_packet_size-le}
use uvg_rtp.Rtcp.AppSizes.{Within, octets_of_apps, octets_of_bye}
use uvg_rtp.Rtcp.ReportSizes.{
  news, count_reports-news, write_blocks-octets, report_sizes, write_start-octets,
}
use uvg_rtp.Rtcp.RestSizes.{
  next_apps, apps_size-octets, Writable, octets_of_rest, write_rest-octets,
}

start_words : (sends : Bool) (k n : ℕ) → n ≡ (if sends then 28 else 8) + 24 * k → n % 4 ≡ 0
start_words true k n h = omega arith
start_words false k n h = omega arith

Within-equal : (m n : ℕ) (w : Bool × List ℕ) → m ≡ n → Within m w → Within n w
Within-equal m n w e (less, whole) = (omega arith, λ h. whole h ∙ e)

write_report-octets :
    (e : ReportEnv) (r : Reporter) (n : ℕ)
    → Writable e r
    → n < 256
    → (w : Bool × List ℕ × Reporter) × (write_report e r n (octets_of_apps (next_apps e r))
        ≡ some w)
      × Within
          ((if sends_sr r then 28 else 8)
            + 24 * news r.control.rtcp.participants
            + octets_of_rest e r)
          (w.0, w.1)
unfolding write_report after_report start_clock
write_report-octets e r n fit few =
    let k = news r.control.rtcp.participants in
    let (frame, made, start) = write_start-octets e r n fit.plain few in
    let blocks = write_blocks e frame r.control.rtcp.participants in
    let before : length blocks.0 ≡ (if sends_sr r then 28 else 8) + 24 * k =
      write_blocks-octets e frame r.control.rtcp.participants ∙ ap (λ (m : ℕ). m + 24 * k) start in
    let (w, written, bounds) =
      write_rest-octets e (after_report (start_clock e r) blocks.1) blocks.0 fit.items fit.items_fit
        fit.apps (start_words (sends_sr r) k (length blocks.0) before) in
    (
      w,
      rw made written,
      Within-equal (length blocks.0 + octets_of_rest e r)
          ((if sends_sr r then 28 else 8) + 24 * k + octets_of_rest e r) (w.0, w.1)
          (ap (λ (m : ℕ). m + octets_of_rest e r) before) bounds,
    )

news-le : (participants : Participants) → news participants ≤ length participants
unfolding news
news-le [] = omega arith
news-le ((ssrc, p) ∷ participants) = one p.stats.received_rtp_packet (news-le participants)
  where
    one :
        (heard : Bool)
        → news participants ≤ length participants
        → (if heard then suc (news participants) else news participants) ≤ suc (length participants)
    one true h = omega arith
    one false h = omega arith

bye_size :
    (ssrcs : List ℕ) (size : ℕ)
    → length ssrcs < 2 ^ 16
    → size < 2 ^ 31 + 2 ^ 20
    → (elim ssrcs [ [] ↦ size | b ∷ bs ↦ (size + get_bye_packet_size (b ∷ bs)) % 2 ^ 32 ])
      ≡ size + octets_of_bye ssrcs
unfolding get_bye_packet_size
bye_size [] size few small = omega arith
bye_size (b ∷ bs) size few small = omega arith

report_size :
    (r : Reporter) (n : ℕ)
    → flag_set r.rce_flags rce_srtp ≡ false
    → n < 256
    → (if sends_sr r then get_sr_packet_size r.rce_flags n else get_rr_packet_size r.rce_flags n)
      ≡ (if sends_sr r then 28 else 8) + 24 * n
report_size r n plain few =
    let (rr_size, sr_size) = report_sizes r.rce_flags n plain few in
    elim (Bool-cases (sends_sr r)) [
      | inl sends ↦ rw sends sr_size
      | inr receives ↦ rw receives rr_size
    ]

start_small : (sends : Bool) (n : ℕ) → n < 256 → (if sends then 28 else 8) + 24 * n < 2 ^ 13
start_small true n h = omega arith
start_small false n h = omega arith

start_some : (sends : Bool) (k : ℕ) → 1 ≤ (if sends then 28 else 8) + 24 * k
start_some true k = omega arith
start_some false k = omega arith

size_of_compound_packet-octets :
    (e : ReportEnv) (r : Reporter)
    → Writable e r
    → size_of_compound_packet r (news r.control.rtcp.participants) (octets_of_apps (next_apps e r))
      ≡ (if sends_sr r then 28 else 8) + 24 * news r.control.rtcp.participants + octets_of_rest e r
unfolding size_of_compound_packet
size_of_compound_packet-octets e r fit =
    let k = news r.control.rtcp.participants in
    let few : k < 256 = omega (arith, news-le r.control.rtcp.participants, fit.few) in
    let start = (if sends_sr r then 28 else 8) + 24 * k in
    let small = start_small (sends_sr r) k few in
    let named = get_sdes_packet_size-le r.our_items fit.items_fit in
    let apps = octets_of_apps (next_apps e r) in
    let whole : (start + get_sdes_packet_size r.our_items + apps) % 2 ^ 32
        ≡ start + get_sdes_packet_size r.our_items + apps =
      omega (arith, fit.apps_fit) in
    ap
      (λ (report : ℕ).
        let size = (report + get_sdes_packet_size r.our_items + apps) % 2 ^ 32 in
        elim r.bye_ssrcs [ [] ↦ size | b ∷ bs ↦ (size + get_bye_packet_size (b ∷ bs)) % 2 ^ 32 ])
      (report_size r k fit.plain few)
    ∙ bye_size r.bye_ssrcs ((start + get_sdes_packet_size r.our_items + apps) % 2 ^ 32) fit.byes_fit
        (omega (arith, fit.apps_fit))
    ∙ omega arith

counted-Writable :
    (e : ReportEnv) (r : Reporter)
    → Writable e r
    → Writable e (record r { rtcp_pkt_sent_count = (r.rtcp_pkt_sent_count + 1) % 2 ^ 32 })
counted-Writable e r fit = record {
  plain = fit.plain;
  few = fit.few;
  items = fit.items;
  items_fit = fit.items_fit;
  apps = fit.apps;
  apps_fit = fit.apps_fit;
  byes_fit = fit.byes_fit;
}

-- The buffer that was made for a report takes what is written into it.
in_buffer-Within :
    (size : ℕ) (w : Bool × List ℕ × Reporter)
    → Within size (w.0, w.1)
    → in_buffer size w ≡ some (if w.0 then (ok, w.2, some w.1) else (generic_error, w.2, none))
unfolding in_buffer
in_buffer-Within size (true, frame, r) (less, whole) =
    let full : size - length frame ≡ 0 = omega (arith, whole refl) in
    let room : ltb size (length frame) ≡ false = ground arith in
    rw (room, full) (ap (λ (f : List ℕ). some (ok, r, some f)) (append-nil frame))
in_buffer-Within size (false, frame, r) (less, whole) =
    let room : ltb size (length frame) ≡ false = ground arith in rw room refl

-- Without RCE_SRTP, with fewer than 256 participants, at most 65520 octets of items, fewer than 2^31
-- octets of APP packets and fewer than 2^16 SSRCs for BYE, and items and APP packets that have the data
-- that their lengths say: what generate_report() writes never goes behind the buffer whose size it has
-- computed before, though a part may be refused; and if none is, it fills the buffer to the last octet,
-- so that the packet is what was written.
pub build_report_fills :
    (e : ReportEnv) (r : Reporter)
    → Writable e r
    → (done : Bool) × (frame : List ℕ) × (r' : Reporter) × (build_report e r
        ≡ some (if done then (ok, r', some frame) else (generic_error, r', none)))
      × (length frame
          ≤ size_of_compound_packet r (count_reports r.control.rtcp.participants 0) (apps_size e r))
      × ((done ≡ false)
          ⊎ (length frame
              ≡ size_of_compound_packet r
                  (count_reports r.control.rtcp.participants 0)
                  (apps_size e r)))
unfolding build_report sends_sr
build_report_fills e r fit =
    let counted : Reporter = record r {
      rtcp_pkt_sent_count = (r.rtcp_pkt_sent_count + 1) % 2 ^ 32;
    } in
    let k = news r.control.rtcp.participants in
    let few : k < 256 = omega (arith, news-le r.control.rtcp.participants, fit.few) in
    let count : count_reports r.control.rtcp.participants 0 ≡ k =
      count_reports-news r.control.rtcp.participants 0 (omega (arith, fit.few)) ∙ omega arith in
    let apps = apps_size-octets e r (omega (arith, fit.apps_fit)) in
    let size = size_of_compound_packet-octets e r fit in
    let (w, written, bounds) = write_report-octets e counted k (counted-Writable e r fit) few in
    let bounds' =
      Within-equal _ (size_of_compound_packet r k (octets_of_apps (next_apps e r))) (w.0, w.1)
        (sym size) bounds in
    let nonzero : (size_of_compound_packet r k (octets_of_apps (next_apps e r)) == 0) ≡ false =
      let some_octets = start_some (sends_sr r) k in ground (arith, size) in
    let room =
      ap (λ (n : ℕ). size_of_compound_packet r n (apps_size e r)) count
      ∙ ap (size_of_compound_packet r k) apps in
    let (less, whole) = Within-equal _ _ (w.0, w.1) (sym room) bounds' in
    (
      w.0,
      w.1,
      w.2,
      rw (count, apps, nonzero, written)
          (in_buffer-Within (size_of_compound_packet r k (octets_of_apps (next_apps e r))) w
            bounds'),
      less,
      elim (Bool-cases w.0) [ inl done ↦ inr (whole done) | inr refused ↦ inl refused ],
    )
