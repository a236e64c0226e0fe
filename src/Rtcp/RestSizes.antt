-- ===== src/Rtcp/RestSizes.antt =====
-- src/rtcp.cc: how many octets generate_report() writes behind the report.
use uvg_rtp.Prelude.{
  ◌==◌, ==_iff, Bool-cases, length, ◌>>=◌, flag_set, ℕ, ◌+◌, ◌%◌, ◌^◌, ◌≤◌, ◌<◌, ◌≡◌, refl, ◌∙◌,
  inl, inr, Bool, true, false, Option, none, some, List, [], arith,
}
use uvg_rtp.Util.{rce_srtp}
use uvg_rtp.Rtcp.Packets.{get_sdes_packet_size}
use uvg_rtp.Rtcp.Report.{
  OutgoingApp, Reporter, ReportEnv, first_packets, size_of_apps, write_apps, write_bye,
  write_queues, write_app_packets, write_rest, apps_size,
}
use uvg_rtp.Rtcp.Named.{AllReadable, any_cname, octets_of, write_sdes-octets}
use uvg_rtp.Rtcp.AppSizes.{
  Within, AllApps, octets_of_apps, size_of_apps-octets_of_apps, write_apps-octets,
  write_queues-octets, octets_of_bye, write_bye-octets,
}

-- The APP packets that go into the next report.
abbrev pub apps_of : Option (List OutgoingApp) → List (List OutgoingApp) → List OutgoingApp
apps_of none queues = first_packets queues
apps_of (some apps) queues = apps

abbrev pub next_apps : ReportEnv → Reporter → List OutgoingApp
next_apps e r = apps_of e.hooked r.app_packets

pub apps_size-octets :
    (e : ReportEnv) (r : Reporter)
    → octets_of_apps (next_apps e r) < 2 ^ 32
    → apps_size e r ≡ octets_of_apps (next_apps e r)
unfolding apps_size
apps_size-octets e r small = go e.hooked small
  where
    go :
        (hooked : Option (List OutgoingApp))
        → octets_of_apps (apps_of hooked r.app_packets) < 2 ^ 32
        → (elim hooked [
          | none ↦ size_of_apps 0 (first_packets r.app_packets)
          | some apps ↦ size_of_apps 0 apps
        ])
          ≡ octets_of_apps (apps_of hooked r.app_packets)
    go none small =
        size_of_apps-octets_of_apps 0 (first_packets r.app_packets) (omega arith) ∙ omega arith
    go (some apps) small = size_of_apps-octets_of_apps 0 apps (omega arith) ∙ omega arith

pub write_app_packets-octets :
    (e : ReportEnv) (r : Reporter) (frame : List ℕ)
    → AllApps (next_apps e r)
    → (w : Bool × List ℕ × List (List OutgoingApp)) × (write_app_packets e r
          (octets_of_apps (next_apps e r))
          frame
        ≡ some w)
      × Within (length frame + octets_of_apps (next_apps e r)) (w.0, w.1)
unfolding write_app_packets
write_app_packets-octets e r frame readable =
    elim (Bool-cases (octets_of_apps (next_apps e r) == 0)) [
      | inl empty ↦
          (let zero_octets = (==_iff (octets_of_apps (next_apps e r)) 0).0 empty in
            ((true, frame, r.app_packets), rw empty refl, (omega arith, λ h. omega arith)))
      | inr waiting ↦ rw waiting (go e.hooked readable)
    ]
  where
    go :
        (hooked : Option (List OutgoingApp))
        → AllApps (apps_of hooked r.app_packets)
        → (w : Bool × List ℕ × List (List OutgoingApp)) × ((elim hooked [
          | none ↦ write_queues r.ssrc frame r.app_packets
          | some apps ↦ (do
            (done, frame') ← write_apps r.ssrc frame apps
            some (done, frame', r.app_packets))
        ])
            ≡ some w)
          × Within (length frame + octets_of_apps (apps_of hooked r.app_packets)) (w.0, w.1)
    go none readable = write_queues-octets r.ssrc frame r.app_packets readable
    go (some apps) readable =
        let (w, written, bounds) = write_apps-octets r.ssrc frame apps readable in
        ((w.0, w.1, r.app_packets), rw written refl, bounds)

-- What the user has given can be read, and is no more than a packet can hold.
pub record Writable (e : ReportEnv) (r : Reporter) : Type 0 where
  pub plain : flag_set r.rce_flags rce_srtp ≡ false
  pub few : length r.control.rtcp.participants < 256
  pub items : AllReadable r.our_items
  pub items_fit : octets_of r.our_items ≤ 65520
  pub apps : AllApps (next_apps e r)
  pub apps_fit : octets_of_apps (next_apps e r) < 2 ^ 31
  pub byes_fit : length r.bye_ssrcs < 2 ^ 16

abbrev pub octets_of_rest : ReportEnv → Reporter → ℕ
octets_of_rest e r =
    get_sdes_packet_size r.our_items + octets_of_apps (next_apps e r) + octets_of_bye r.bye_ssrcs

pub write_rest-octets :
    (e : ReportEnv) (r : Reporter) (frame : List ℕ)
    → AllReadable r.our_items
    → octets_of r.our_items ≤ 65520
    → AllApps (next_apps e r)
    → length frame % 4 ≡ 0
    → (w : Bool × List ℕ × Reporter) × (write_rest e r (octets_of_apps (next_apps e r)) frame
        ≡ some w)
      × Within (length frame + octets_of_rest e r) (w.0, w.1)
unfolding write_rest
write_rest-octets e r frame items fits apps words =
    let (frame1, named, sdes_octets) =
      write_sdes-octets r r.control.rtcp.num_receivers frame items fits words in
    elim (Bool-cases (any_cname r.our_items)) [
      | inl has ↦
          (let (w, written, (less, whole)) = write_app_packets-octets e r frame1 apps in
            elim (Bool-cases w.0) [
              | inl done ↦
                  (let r' = record r { app_packets = w.2 } in
                    let (below, exact) = write_bye-octets r' w.1 in
                    (
                      ((write_bye r' w.1).0, (write_bye r' w.1).1, record r' { bye_ssrcs = [] }),
                      rw (named, has, written, done) refl,
                      (omega (arith, whole done), λ h. omega (arith, whole done, exact h)),
                    ))
              | inr refused ↦ (
                (false, w.1, record r { app_packets = w.2 }),
                rw (named, has, written, refused) refl,
                (omega arith, λ h. cc),
              )
            ])
      | inr misses ↦ ((false, frame1, r), rw (named, misses) refl, (omega arith, λ h. cc))
    ]
