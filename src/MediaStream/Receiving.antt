-- ===== src/MediaStream/Receiving.antt =====
-- Packets that go through the reception flow of one stream, src/media_stream.cc and
-- src/reception_flow.cc.
use uvg_rtp.Prelude.{
  if◌then◌else◌, flag_set, lookup, insert, ℕ, ◌≡◌, refl, ap, ◌∙◌, Bool, true, false, none, some,
  List, [], ◌∷◌, arith,
}
use uvg_rtp.Util.{rce_srtp, rce_rtcp, rce_rtcp_mux}
use uvg_rtp.Frame.{RtpFrame}
use uvg_rtp.Srtp.Packets.{Crypto}
use uvg_rtp.ReceptionFlow.Flow.{
  PacketHandler, Handlers, Flow, no_handlers, new_flow, handlers_at, set_handler, install_handler,
}
use uvg_rtp.MediaStream.{
  Streams, rtp_handler, rtcp_common_handler, srtp_handler, media_handler, create_media,
  install_packet_handlers,
}

-- A running flow that one stream has installed its handlers in.
unfoldable pub stream_flow :
    Crypto → PacketHandler Streams → ℕ → ℕ → List RtpFrame → Streams → Flow Streams
stream_flow x control rce_flags ssrc frames w =
    install_packet_handlers x control rce_flags ssrc
      (create_media ssrc (record (new_flow w) { should_stop = false; frames = frames }))

-- The handlers of such a stream.
abbrev pub stream_handlers : Crypto → PacketHandler Streams → ℕ → Handlers Streams
stream_handlers x control rce_flags = record {
  rtp = some rtp_handler;
  rtcp = if flag_set rce_flags rce_rtcp_mux then some control else none;
  zrtp = none;
  srtp = if flag_set rce_flags rce_srtp then some (srtp_handler x) else none;
  media = some media_handler;
  rtcp_common = if flag_set rce_flags rce_rtcp then some rtcp_common_handler else none;
  getter = none;
}

abbrev pub stream_state : ℕ → Handlers Streams → List RtpFrame → Streams → Flow Streams
stream_state ssrc h frames w = record {
  frames = frames;
  hooks = [];
  packet_handlers = (ssrc, h) ∷ [];
  should_stop = false;
  streams = w;
}

install_one :
    (type ssrc : ℕ) (f : PacketHandler Streams) (h h' : Handlers Streams) (frames : List RtpFrame)
    (w : Streams)
    → set_handler type f h ≡ some h'
    → (install_handler type ssrc f (stream_state ssrc h frames w)).1 ≡ stream_state ssrc h' frames w
unfolding install_handler handlers_at lookup insert
install_one type ssrc f h h' frames w e = ground arith

install_when :
    (b : Bool) (type ssrc : ℕ) (f : PacketHandler Streams) (h h' : Handlers Streams)
    (frames : List RtpFrame) (w : Streams)
    → set_handler type f h ≡ some h'
    → (if b
        then (install_handler type ssrc f (stream_state ssrc h frames w)).1
        else stream_state ssrc h frames w)
      ≡ stream_state ssrc (if b then h' else h) frames w
install_when true type ssrc f h h' frames w e = install_one type ssrc f h h' frames w e
install_when false type ssrc f h h' frames w e = refl

-- The handlers after each of install_packet_handlers()' steps.
abbrev with_media : Handlers Streams
unfolding no_handlers
with_media = record no_handlers { media = some media_handler }

abbrev with_rtp : Handlers Streams
with_rtp = record with_media { rtp = some rtp_handler }

created :
    (ssrc : ℕ) (frames : List RtpFrame) (w : Streams)
    → create_media ssrc (record (new_flow w) { should_stop = false; frames = frames })
      ≡ stream_state ssrc with_media frames w
unfolding create_media install_handler set_handler handlers_at new_flow insert with_media lookup
created ssrc frames w = refl

module _ (x : Crypto) (control : PacketHandler Streams) where
  abbrev with_common : Bool → Handlers Streams
  with_common a = if a then record with_rtp { rtcp_common = some rtcp_common_handler } else with_rtp

  abbrev with_control : Bool → Bool → Handlers Streams
  with_control a b = if b then record (with_common a) { rtcp = some control } else with_common a

  abbrev with_srtp : Bool → Bool → Bool → Handlers Streams
  with_srtp a b c =
      if c then record (with_control a b) { srtp = some (srtp_handler x) } else with_control a b

  with_srtp_lem :
      (a b c : Bool)
      → with_srtp a b c ≡ record {
        rtp = some rtp_handler;
        rtcp = if b then some control else none;
        zrtp = none;
        srtp = if c then some (srtp_handler x) else none;
        media = some media_handler;
        rtcp_common = if a then some rtcp_common_handler else none;
        getter = none;
      }
  unfolding no_handlers
  with_srtp_lem true true true = refl
  with_srtp_lem true true false = refl
  with_srtp_lem true false true = refl
  with_srtp_lem true false false = refl
  with_srtp_lem false true true = refl
  with_srtp_lem false true false = refl
  with_srtp_lem false false true = refl
  with_srtp_lem false false false = refl

  -- The flow that a stream leaves.
  pub stream_flow_lem :
      (rce_flags ssrc : ℕ) (frames : List RtpFrame) (w : Streams)
      → stream_flow x control rce_flags ssrc frames w
        ≡ stream_state ssrc (stream_handlers x control rce_flags) frames w
  unfolding stream_flow install_packet_handlers set_handler no_handlers
  stream_flow_lem rce_flags ssrc frames w =
      let a = flag_set rce_flags rce_rtcp in
      let b = flag_set rce_flags rce_rtcp_mux in
      let c = flag_set rce_flags rce_srtp in
      let step : ℕ → PacketHandler Streams → Flow Streams → Flow Streams =
        λ n f s. (install_handler n ssrc f s).1 in
      let when : Bool → ℕ → PacketHandler Streams → Flow Streams → Flow Streams =
        λ t n f s. if t then step n f s else s in
      ap
        (λ s.
          when c 4 (srtp_handler x)
            (when b 2 control (when a 6 rtcp_common_handler (step 1 rtp_handler s))))
        (created ssrc frames w)
      ∙ ap (λ s. when c 4 (srtp_handler x) (when b 2 control (when a 6 rtcp_common_handler s)))
          (install_one 1 ssrc rtp_handler with_media with_rtp frames w refl)
      ∙ ap (λ s. when c 4 (srtp_handler x) (when b 2 control s))
          (install_when a 6 ssrc rtcp_common_handler with_rtp _ frames w refl)
      ∙ ap (λ s. when c 4 (srtp_handler x) s)
          (install_when b 2 ssrc control (with_common a) _ frames w refl)
      ∙ install_when c 4 ssrc (srtp_handler x) (with_control a b) _ frames w refl
      ∙ ap (λ h. stream_state ssrc h frames w) (with_srtp_lem a b c)
