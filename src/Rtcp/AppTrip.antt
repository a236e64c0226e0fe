-- ===== src/Rtcp/AppTrip.antt =====
-- src/rtcp.cc and src/rtcp_packets.cc: an APP packet from its writer to the hook of the receiver.
use uvg_rtp.Prelude.{
  ltb, ◌==◌, lt→ltb, Bool-cases, length, length-append, read32, put32, take_exact,
  take_exact-append, read32-put32, read32-start, ℕ, zero, suc, ◌+◌, ◌-◌, ◌%◌, ◌^◌, ◌≤◌, ◌<◌, ◌≡◌,
  refl, sym, ap, ◌∙◌, inl, inr, Bool, true, false, not, ◌||◌, none, some, List, [], ◌∷◌, ◌++◌,
  append-nil, append_assoc, arith,
}
use uvg_rtp.Util.{ok}
use uvg_rtp.Rtcp.Packets.{
  RtcpFrameType, frame_type_number, get_app_packet_size, construct_rtcp_header, construct_ssrc,
  construct_app_packet, construct_app_block, app,
}
use uvg_rtp.Rtcp.Read.{RtcpHeader, rtcp_length_in_bytes, read_rtcp_header}
use uvg_rtp.Rtcp.Participants.{is_participant}
use uvg_rtp.Rtcp.Incoming.{
  AppPacket, Control, update_rtcp_bandwidth, update_avg_rtcp_size, is_ok, handle_app_packet,
  app_packet,
}
use uvg_rtp.Rtcp.Compound.{
  handle_by_type, reset_timeout, after_handler, walk_packet, walk_packets, handle_incoming_packet,
  handled,
}
use uvg_rtp.Rtcp.RoundTrip.{read_rtcp_header-construct_rtcp_header}
use uvg_rtp.Rtcp.Handlers.{handle_app_packet-fields}

-- A header at the start has four octets.
length-construct_rtcp_header :
    (packet_size second : ℕ) (t : RtcpFrameType) (written : List ℕ)
    → construct_rtcp_header [] packet_size second t ≡ (true, written)
    → length written ≡ 4
unfolding construct_rtcp_header
length-construct_rtcp_header packet_size second t written e =
    elim (Bool-cases (ltb 65535 packet_size || not (packet_size % 4 == 0))) [
      | inl refused ↦
          let e0 : (construct_rtcp_header [] packet_size second t).0 ≡ false = rw refused refl in
          let e1 = ap (λ (x : Bool × List ℕ). x.0) e in absurd cc
      | inr fits ↦
          let four : length (construct_rtcp_header [] packet_size second t).1 ≡ 4 = rw fits refl in
          ap (λ (x : Bool × List ℕ). length x.1) (sym e) ∙ four
    ]

walk_packets_done :
    (fuel : ℕ) (buffer : List ℕ) (read_ptr remaining ssrc : ℕ) (c : Control)
    → remaining ≡ 0
    → walk_packets fuel buffer read_ptr remaining ssrc c ≡ some (ok, c)
unfolding walk_packets
walk_packets_done zero buffer read_ptr remaining ssrc c e = rw e refl
walk_packets_done (suc fuel) buffer read_ptr remaining ssrc c e = rw e refl

-- The only packet of a datagram.
abbrev pub app_header : ℕ → ℕ → RtcpHeader
app_header count len = record {
  version = 2;
  padding = 0;
  count = count;
  pkt_type = 204;
  length = len;
}

module _ (size ssrc count len : ℕ) (buffer : List ℕ) (c c' : Control) (long : 4 ≤ size)
    (read : read_rtcp_header buffer 0 ≡ some (app_header count len, 4))
    (fits : rtcp_length_in_bytes len ≡ size)
    (done : handle_app_packet buffer 4 (0 + size) (app_header count len) (reset_timeout ssrc c)
      ≡ some (ok, c')) where
  walk_packet_app : walk_packet buffer 0 size ssrc c ≡ some (handled size c')
  unfolding walk_packet handle_by_type after_handler is_ok
  walk_packet_app =
      let short : ltb size 4 ≡ false = ground arith in
      let partial : ltb size size ≡ false = ground arith in
      rw (short, read, fits, partial, done) refl

  walk_packets_single : (fuel : ℕ) → walk_packets (suc fuel) buffer 0 size ssrc c ≡ some (ok, c')
  unfolding walk_packets
  walk_packets_single fuel =
      let some_octets : (size == 0) ≡ false = ground arith in
      rw (some_octets, walk_packet_app)
        (walk_packets_done fuel buffer (0 + size) (size - size) ssrc c' (omega arith))

take_exact_all : (xs : List ℕ) → take_exact (length xs) xs ≡ some xs
take_exact_all xs = ap (take_exact (length xs)) (sym (append-nil xs)) ∙ take_exact-append xs []

construct_app_block_made :
    (second ssrc : ℕ) (name payload written : List ℕ)
    → length name ≡ 4
    → length payload < 65520
    → construct_rtcp_header [] (12 + length payload) second app ≡ (true, written)
    → construct_app_block [] second ssrc name payload (length payload)
      ≡ some (true, written ++ (put32 ssrc ++ (name ++ payload)))
unfolding construct_app_block get_app_packet_size construct_app_packet construct_ssrc
construct_app_block_made second ssrc name payload written four short made =
    let size : (4 + 4 + 4 + length payload % 2 ^ 32) % 2 ^ 32 ≡ 12 + length payload = omega arith in
    let e1 : take_exact 4 name ≡ some name =
      ap (λ (n : ℕ). take_exact n name) (sym four) ∙ take_exact_all name in
    rw (size, made, e1, take_exact_all payload)
      (ap (λ (b : List ℕ). some (true, b)) (append_assoc written (put32 ssrc) (name ++ payload)))

-- The receiver's state after it.
abbrev app_handed : ℕ → ℕ → Control → AppPacket → Control
app_handed ssrc size c frame =
    let c' = reset_timeout ssrc (update_avg_rtcp_size size (update_rtcp_bandwidth size c)) in
    record c' { handed = c.handed ++ (app_packet frame ∷ []) }

incoming_sized :
    (buffer : List ℕ) (n ssrc : ℕ) (c : Control)
    → length buffer ≡ n
    → 8 < n
    → read32 buffer 4 ≡ some ssrc
    → handle_incoming_packet none buffer c
      ≡ walk_packets n buffer 0 n ssrc (update_avg_rtcp_size n (update_rtcp_bandwidth n c))
unfolding handle_incoming_packet
incoming_sized buffer n ssrc c size long here =
    let some_octets : (n == 0) ≡ false = ground arith in
    rw (size, some_octets, lt→ltb 8 n long, here) refl

handle_incoming_app :
    (count len ssrc : ℕ) (name payload written : List ℕ) (c : Control)
    → ssrc < 4294967296
    → length name ≡ 4
    → length payload < 65520
    → is_participant ssrc c.rtcp ≡ true
    → c.app_hook ≡ true
    → length written ≡ 4
    → read_rtcp_header (written ++ (put32 ssrc ++ (name ++ payload))) 0
      ≡ some (app_header count len, 4)
    → rtcp_length_in_bytes len ≡ 12 + length payload
    → handle_incoming_packet none (written ++ (put32 ssrc ++ (name ++ payload))) c
      ≡ some (
        ok,
        app_handed ssrc (12 + length payload) c (record {
          header = app_header count len;
          ssrc = ssrc;
          name = name;
          payload_len = length payload;
          payload = payload;
        }),
      )
unfolding reset_timeout update_avg_rtcp_size update_rtcp_bandwidth is_participant
handle_incoming_app count len ssrc name payload written c u32 four short known hook front read
      fits =
    let body = put32 ssrc ++ (name ++ payload) in
    let bytes = written ++ body in
    let size : length bytes ≡ 12 + length payload = omega (
      arith,
      length-append written body,
      length-append (put32 ssrc) (name ++ payload),
      length-append name payload,
      front,
      four,
    ) in
    let here : read32 bytes 4 ≡ some ssrc =
      ap (read32 bytes) (sym front)
      ∙ read32-start written body
      ∙ read32-put32 ssrc (name ++ payload) u32 in
    let n = 12 + length payload in
    let c1 = update_avg_rtcp_size n (update_rtcp_bandwidth n c) in
    let c2 = reset_timeout ssrc c1 in
    let done =
      handle_app_packet-fields written name payload ssrc (0 + n) (app_header count len) c2 u32 four
        (omega (arith, front)) (omega arith) known hook in
    incoming_sized bytes n ssrc c size (omega arith) here
    ∙ ap (λ (f : ℕ). walk_packets f bytes 0 n ssrc c1) {y = suc (11 + length payload)} (omega arith)
    ∙ walk_packets_single n ssrc count len bytes c1 _ (omega arith) read fits
        (ap (λ (i : ℕ). handle_app_packet bytes i (0 + n) (app_header count len) c2) (sym front)
          ∙ done)
        (11 + length payload)

-- An APP packet with a count below 32, a name of four octets and a payload of whole words, fewer than
-- 65520 octets, is written; and the receiver of it as a datagram, without SRTCP, who knows the sender
-- and has a hook, calls the hook with the ssrc, the name and the payload.
pub handle_incoming_packet-construct_app_block :
    (second ssrc : ℕ) (name payload : List ℕ) (c : Control)
    → second < 32
    → ssrc < 4294967296
    → length name ≡ 4
    → length payload % 4 ≡ 0
    → length payload < 65520
    → is_participant ssrc c.rtcp ≡ true
    → c.app_hook ≡ true
    → (bytes : List ℕ) × (c' : Control) × (len : ℕ) × (construct_app_block [] second ssrc name
          payload
          (length payload)
        ≡ some (true, bytes))
      × (handle_incoming_packet none bytes c ≡ some (ok, c'))
      × (c'.handed
          ≡ c.handed
            ++ (app_packet (record {
              header = app_header second len;
              ssrc = ssrc;
              name = name;
              payload_len = length payload;
              payload = payload;
            })
                ∷ []))
unfolding frame_type_number
handle_incoming_packet-construct_app_block second ssrc name payload c u5 u32 four words short known
      hook =
    let size : ℕ = 12 + length payload in
    let body : List ℕ = put32 ssrc ++ (name ++ payload) in
    let (written, len, made, read, fits) =
      read_rtcp_header-construct_rtcp_header [] body size second app (omega arith) (omega arith)
        (omega arith) u5 in
    let app_frame : AppPacket = record {
      header = app_header second len;
      ssrc = ssrc;
      name = name;
      payload_len = length payload;
      payload = payload;
    } in
    let front = length-construct_rtcp_header size second app written made in
    (
      written ++ body,
      app_handed ssrc size c app_frame,
      len,
      construct_app_block_made second ssrc name payload written four short made,
      handle_incoming_app second len ssrc name payload written c u32 four short known hook front
          read fits,
      refl,
    )
