-- ===== src/Rtcp/AppSizes.antt =====
-- src/rtcp.cc: how many octets the APP and BYE packets of generate_report() take.
use uvg_rtp.Prelude.{
  ltb, ◌==◌, Bool-cases, length, length-append, take, length-take, put16, put32, take_exact_total,
  ℕ, ◌+◌, ◌-◌, ◌*◌, ◌/◌, ◌%◌, ◌^◌, ◌≤◌, ◌<◌, bit_or, ◌≡◌, refl, ap, ◌∙◌, inl, inr, Bool, true,
  false, not, ◌||◌, some, List, [], ◌∷◌, ◌++◌, arith,
}
use uvg_rtp.Prelude.{put32, put16}
use uvg_rtp.Rtcp.Packets.{
  RtcpFrameType, frame_type_number, get_app_packet_size, get_bye_packet_size, construct_rtcp_header,
  construct_ssrc, construct_app_packet, construct_bye_packet, construct_app_block, bye, app,
}
use uvg_rtp.Rtcp.Report.{
  OutgoingApp, Reporter, first_packets, size_of_apps, write_apps, write_bye, write_queues,
}

-- A part that has room for n octets behind l writes no more, and writes all of them if it succeeds.
abbrev pub Within : ℕ → Bool × List ℕ → Type 0
Within n (done, frame) = (length frame ≤ n) × (done ≡ true → length frame ≡ n)

pub length-construct_rtcp_header :
    (frame : List ℕ) (size second : ℕ) (type : RtcpFrameType)
    → Within (length frame + 4) (construct_rtcp_header frame size second type)
unfolding construct_rtcp_header
length-construct_rtcp_header frame size second type =
    elim (Bool-cases (ltb 65535 size || not (size % 4 == 0))) [
      | inl refused ↦ rw refused (omega arith, λ h. cc)
      | inr fits ↦
          (let octets : length (
                  frame
                  ++ ((bit_or 128 second % 256)
                      ∷ (frame_type_number type
                          ∷ put16 ((size % 2 ^ 16 / 4 + 2 ^ 64 - 1) % 2 ^ 16))))
                ≡ length frame + 4 =
              length-append frame _ in
            rw fits (omega arith, λ h. octets))
    ]

abbrev pub ReadableApp : OutgoingApp → Type 0
ReadableApp next = (4 ≤ length next.name) × (next.payload_len ≤ length next.payload)

abbrev pub AllApps : List OutgoingApp → Type 0
AllApps [] = Unit {0}
AllApps (next ∷ apps) = ReadableApp next × AllApps apps

abbrev pub octets_of_apps : List OutgoingApp → ℕ
octets_of_apps [] = 0
octets_of_apps (next ∷ apps) = 12 + next.payload_len + octets_of_apps apps

pub size_of_apps-octets_of_apps :
    (size : ℕ) (apps : List OutgoingApp)
    → size + octets_of_apps apps < 2 ^ 32
    → size_of_apps size apps ≡ size + octets_of_apps apps
unfolding size_of_apps get_app_packet_size
size_of_apps-octets_of_apps size [] small = omega arith
size_of_apps-octets_of_apps size (next ∷ apps) small =
    let here : (size + get_app_packet_size next.payload_len) % 2 ^ 32
        ≡ size + (12 + next.payload_len) =
      omega arith in
    ap (λ (k : ℕ). size_of_apps k apps) here
    ∙ size_of_apps-octets_of_apps (size + (12 + next.payload_len)) apps (omega arith)
    ∙ omega arith

pub construct_app_block-octets :
    (frame : List ℕ) (ssrc : ℕ) (next : OutgoingApp)
    → ReadableApp next
    → (w : Bool × List ℕ) × (construct_app_block frame
          (next.subtype % 32)
          ssrc
          next.name
          next.payload
          next.payload_len
        ≡ some w)
      × Within (length frame + (12 + next.payload_len)) w
unfolding construct_app_block construct_app_packet construct_ssrc
construct_app_block-octets frame ssrc next (named, enough) =
    let size = get_app_packet_size (next.payload_len % 2 ^ 32) in
    let h = construct_rtcp_header frame size (next.subtype % 32) app in
    let (less, whole) = length-construct_rtcp_header frame size (next.subtype % 32) app in
    elim (Bool-cases h.0) [
      | inl fits ↦
          (let written : List ℕ =
              (h.1 ++ put32 ssrc) ++ (take 4 next.name ++ take next.payload_len next.payload) in
            let total : length written ≡ length frame + (12 + next.payload_len) = omega (
              arith,
              whole fits,
              length-append (h.1 ++ put32 ssrc)
                  (take 4 next.name ++ take next.payload_len next.payload),
              length-append h.1 (put32 ssrc),
              length-append (take 4 next.name) (take next.payload_len next.payload),
              length-take 4 next.name,
              length-take next.payload_len next.payload,
            ) in
            (
              (true, written),
              rw
                  (
                    fits,
                    take_exact_total 4 next.name named,
                    take_exact_total next.payload_len next.payload enough,
                  )
                  refl,
              (omega arith, λ e. total),
            ))
      | inr refused ↦ ((false, h.1), rw refused refl, (omega arith, λ e. cc))
    ]

pub construct_bye_packet-octets :
    (frame ssrcs : List ℕ)
    → length (construct_bye_packet frame ssrcs) ≡ length frame + length ssrcs * 4
unfolding construct_bye_packet
construct_bye_packet-octets frame [] = omega arith
construct_bye_packet-octets frame (ssrc ∷ ssrcs) =
    construct_bye_packet-octets (frame ++ put32 ssrc) ssrcs
    ∙ ap (λ (k : ℕ). k + length ssrcs * 4) (length-append frame (put32 ssrc))
    ∙ omega arith

pub write_apps-octets :
    (ssrc : ℕ) (frame : List ℕ) (apps : List OutgoingApp)
    → AllApps apps
    → (w : Bool × List ℕ) × (write_apps ssrc frame apps ≡ some w)
      × Within (length frame + octets_of_apps apps) w
unfolding write_apps
write_apps-octets ssrc frame [] readable = ((true, frame), refl, (omega arith, λ e. omega arith))
write_apps-octets ssrc frame (next ∷ apps) (here, others) =
    let (w, e, (less, whole)) = construct_app_block-octets frame ssrc next here in
    elim (Bool-cases w.0) [
      | inl fits ↦
          (let (v, written, (below, exact)) = write_apps-octets ssrc w.1 apps others in
            (
              v,
              rw (e, fits) written,
              (omega (arith, whole fits), λ h. omega (arith, whole fits, exact h)),
            ))
      | inr refused ↦ ((false, w.1), rw (e, refused) refl, (omega arith, λ h. cc))
    ]

pub write_queues-octets :
    (ssrc : ℕ) (frame : List ℕ) (queues : List (List OutgoingApp))
    → AllApps (first_packets queues)
    → (w : Bool × List ℕ × List (List OutgoingApp)) × (write_queues ssrc frame queues ≡ some w)
      × Within (length frame + octets_of_apps (first_packets queues)) (w.0, w.1)
unfolding write_queues first_packets
write_queues-octets ssrc frame [] readable =
    ((true, frame, []), refl, (omega arith, λ e. omega arith))
write_queues-octets ssrc frame ([] ∷ queues) readable =
    let (w, e, bounds) = write_queues-octets ssrc frame queues readable in
    ((w.0, w.1, [] ∷ w.2), rw e refl, bounds)
write_queues-octets ssrc frame ((next ∷ apps) ∷ queues) (here, others) =
    let (w, e, (less, whole)) = construct_app_block-octets frame ssrc next here in
    elim (Bool-cases w.0) [
      | inl fits ↦
          (let (v, written, (below, exact)) = write_queues-octets ssrc w.1 queues others in
            (
              (v.0, v.1, apps ∷ v.2),
              rw (e, fits, written) refl,
              (omega (arith, whole fits), λ h. omega (arith, whole fits, exact h)),
            ))
      | inr refused ↦ ((false, w.1, apps ∷ queues), rw (e, refused) refl, (omega arith, λ h. cc))
    ]

abbrev pub octets_of_bye : List ℕ → ℕ
octets_of_bye [] = 0
octets_of_bye (b ∷ bs) = 4 + length (b ∷ bs) * 4

pub write_bye-octets :
    (r : Reporter) (frame : List ℕ)
    → Within (length frame + octets_of_bye r.bye_ssrcs) (write_bye r frame)
unfolding write_bye
write_bye-octets r frame = go r.bye_ssrcs refl
  where
    go :
        (ssrcs : List ℕ)
        → r.bye_ssrcs ≡ ssrcs
        → Within (length frame + octets_of_bye ssrcs) (write_bye r frame)
    go [] e = rw e (omega arith, λ h. omega arith)
    go (b ∷ bs) e =
        let h =
          construct_rtcp_header frame (get_bye_packet_size (b ∷ bs)) (length (b ∷ bs) % 32) bye in
        let (less, whole) =
          length-construct_rtcp_header frame (get_bye_packet_size (b ∷ bs)) (length (b ∷ bs) % 32)
            bye in
        elim (Bool-cases h.0) [
          | inl fits ↦
              (let total = construct_bye_packet-octets h.1 (b ∷ bs) in
                rw (e, fits) (omega (arith, whole fits), λ k. omega (arith, whole fits)))
          | inr refused ↦ rw (e, refused) (omega arith, λ k. cc)
        ]
