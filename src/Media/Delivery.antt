-- ===== src/Media/Delivery.antt =====
-- What a receiver gets of a frame that push_media_frame() cut into packets.
use uvg_rtp.Prelude.{
  ℕ, ◌*◌, ◌≤◌, ◌<◌, ◌≡◌, refl, sym, ap, ◌∙◌, arith, Bool, true, false, none, some, List, [], ◌∷◌,
  length, flag_set, IsU16, IsU32, lookup,
}
use uvg_rtp.Util.{ok, rce_srtp_authenticate_rtp, rce_fragment_generic}
use uvg_rtp.Frame.{RtpFrame}
use uvg_rtp.Rtp.Context.{Rtp, Env, fill_header, start_clock, next_timestamp}
use uvg_rtp.FrameQueue.{FrameQueue, max_msg_count, concat}
use uvg_rtp.FrameQueue.Laws.{wire_from, advance_by}
use uvg_rtp.Media.{push_media_frame}
use uvg_rtp.Media.Send.{
  pieces, sent_wire, concat-chunks, AllShort, chunks-AllShort, chunks_several, chunks_few,
  push_media_frame_fragments,
}
use uvg_rtp.Media.InOrder.{feed, feed_in_order, Fragments, payloads, total_len, in_order_results}
use uvg_rtp.Media.EndToEnd.{
  common_of, received, receive_all, receive_all-wire_from, received-Fragments, payloads-received,
  length-received, total_len-received,
}

sent_timestamp-IsU32 : (e : Env) (r : Rtp) → IsU32 (next_timestamp e false r).1
unfolding next_timestamp
sent_timestamp-IsU32 e r = ground arith

abbrev sent_timestamp : Env → Rtp → ℕ
sent_timestamp e r = (next_timestamp e false (start_clock e r)).1

fill_header-common :
    (e : Env) (r : Rtp)
    → (fill_header e false r).1 ≡ common_of r.payload r.seq (sent_timestamp e r) r.ssrc
unfolding fill_header
fill_header-common e r = refl

seq-fill_header : (e : Env) (r : Rtp) → (fill_header e false r).0.seq ≡ r.seq
unfolding fill_header start_clock next_timestamp
seq-fill_header e r = ground arith

feed_list :
    (ts s flags n : ℕ) (p : List ℕ) (fs : List RtpFrame)
    → flag_set flags rce_fragment_generic ≡ true
    → Fragments ts s 0 fs
    → s < 65536
    → 2 ≤ length fs
    → length fs ≤ 65535
    → total_len fs ≡ n
    → payloads fs ≡ p
    → n < 18446744073709551616
    → feed flags fs [] ≡ (in_order_results n p fs, [])
unfolding lookup
feed_list ts s flags n p [] on x sb two few el ep fits = absurd (omega arith)
feed_list ts s flags n p (f ∷ []) on x sb two few el ep fits = absurd (omega arith)
feed_list ts s flags n p (f ∷ h ∷ fs) on x sb two few el ep fits =
    feed_in_order ts s flags f h fs [] on x sb few (omega arith) refl ∙ λ i.
    (in_order_results (el i) (ep i) (f ∷ h ∷ fs), [])

-- Joining the received pieces, for a row of two or more.
feed_received :
    (payload timestamp ssrc flags : ℕ) (r : Rtp) (c d : List ℕ) (cs : List (List ℕ))
    → flag_set flags rce_fragment_generic ≡ true
    → IsU16 r.seq
    → length (c ∷ d ∷ cs) ≤ 65535
    → length (concat (c ∷ d ∷ cs)) < 18446744073709551616
    → feed flags (received payload timestamp ssrc r (c ∷ d ∷ cs)) [] ≡ (
      in_order_results
          (length (concat (c ∷ d ∷ cs)))
          (concat (c ∷ d ∷ cs))
          (received payload timestamp ssrc r (c ∷ d ∷ cs)),
      [],
    )
feed_received payload timestamp ssrc flags r c d cs on sf few fits =
    let len = length-received payload timestamp ssrc r (c ∷ d ∷ cs) in
    feed_list timestamp r.seq flags (length (concat (c ∷ d ∷ cs))) (concat (c ∷ d ∷ cs))
      (received payload timestamp ssrc r (c ∷ d ∷ cs)) on
      (received-Fragments payload r.seq 0 timestamp ssrc r c (d ∷ cs) sf (omega arith)) sf
      (omega (arith, len)) (omega (arith, len))
      (total_len-received payload timestamp ssrc r (c ∷ d ∷ cs))
      (payloads-received payload timestamp ssrc r (c ∷ d ∷ cs)) fits

-- The packets of a row whose pieces make up the frame.
deliver_row :
    (payload timestamp ssrc flags : ℕ) (r : Rtp) (common : List ℕ) (c d : List ℕ)
    (cs : List (List ℕ)) (bytes : List ℕ)
    → common ≡ common_of payload r.seq timestamp ssrc
    → flag_set flags rce_fragment_generic ≡ true
    → IsU16 r.seq
    → IsU32 timestamp
    → IsU32 ssrc
    → length (c ∷ d ∷ cs) ≤ 65535
    → AllShort 9223372036854000000 (c ∷ d ∷ cs)
    → concat (c ∷ d ∷ cs) ≡ bytes
    → length bytes < 18446744073709551616
    → (frames : List RtpFrame) × (receive_all (wire_from common r (c ∷ d ∷ cs)) ≡ some frames)
      × (2 ≤ length frames)
      × (feed flags frames [] ≡ (in_order_results (length bytes) bytes frames, []))
deliver_row payload timestamp ssrc flags r common c d cs bytes e on sf tf rf few short whole fits =
    let len = length-received payload timestamp ssrc r (c ∷ d ∷ cs) in
    (
      received payload timestamp ssrc r (c ∷ d ∷ cs),
      ap (λ (x : List ℕ). receive_all (wire_from x r (c ∷ d ∷ cs))) e
          ∙ receive_all-wire_from payload r.seq timestamp ssrc r (c ∷ d ∷ cs) sf tf rf short,
      omega (arith, len),
      feed_received payload timestamp ssrc flags r c d cs on sf few (omega (arith, ap length whole))
          ∙ ap
              (λ (b : List ℕ). (
                in_order_results (length b) b (received payload timestamp ssrc r (c ∷ d ∷ cs)),
                [],
              ))
              whole,
    )

-- The same for any row of two or more, under any header that is the common one.
deliver_pieces :
    (payload timestamp ssrc flags : ℕ) (r : Rtp) (common : List ℕ) (ps : List (List ℕ))
    (bytes : List ℕ)
    → common ≡ common_of payload r.seq timestamp ssrc
    → 2 ≤ length ps
    → flag_set flags rce_fragment_generic ≡ true
    → IsU16 r.seq
    → IsU32 timestamp
    → IsU32 ssrc
    → length ps ≤ 65535
    → AllShort 9223372036854000000 ps
    → concat ps ≡ bytes
    → length bytes < 18446744073709551616
    → (frames : List RtpFrame) × (receive_all (wire_from common r ps) ≡ some frames)
      × (2 ≤ length frames)
      × (feed flags frames [] ≡ (in_order_results (length bytes) bytes frames, []))
deliver_pieces payload timestamp ssrc flags r common [] bytes e two on sf tf rf few short whole
      fits =
    absurd (omega arith)
deliver_pieces payload timestamp ssrc flags r common (c ∷ []) bytes e two on sf tf rf few short
      whole fits =
    absurd (omega arith)
deliver_pieces payload timestamp ssrc flags r common (c ∷ d ∷ cs) bytes e two on sf tf rf few short
      whole fits =
    deliver_row payload timestamp ssrc flags r common c d cs bytes e on sf tf rf few short whole
      fits

-- With RCE_FRAGMENT_GENERIC and without authentication tags, a frame that is larger than the payload
-- size and makes no more packets than the queue has headers, pushed while the socket takes packets:
-- the push succeeds, and a receiver with the same flags that runs the RTP handler on each packet sent
-- gets a frame from each, two or more, of which the media handler keeps all but the last and returns
-- the pushed octets, whole and in order, with the last, its own state being left empty.
pub push_media_frame_delivered :
    (e : Env) (q : FrameQueue) (sendto : List (List ℕ) → Bool) (b : ℕ) (bytes : List ℕ)
    → flag_set q.rce_flags rce_fragment_generic ≡ true
    → flag_set q.rce_flags rce_srtp_authenticate_rtp ≡ false
    → IsU16 q.rtp.seq
    → IsU32 q.rtp.ssrc
    → 1 ≤ q.rtp.payload_size
    → q.rtp.payload_size < length (b ∷ bytes)
    → length (b ∷ bytes) ≤ max_msg_count * q.rtp.payload_size
    → length (b ∷ bytes) < 9223372036854000000
    → sendto (sent_wire e (b ∷ bytes) q) ≡ true
    → (q' : FrameQueue) × (wire : List (List ℕ)) × (frames : List RtpFrame) × (push_media_frame e
          false sendto
          (b ∷ bytes)
          q
        ≡ some (ok, q', wire))
      × (receive_all wire ≡ some frames)
      × (2 ≤ length frames)
      × (feed q.rce_flags frames []
          ≡ (in_order_results (length (b ∷ bytes)) (b ∷ bytes) frames, []))
push_media_frame_delivered e q sendto b bytes on plain sf rf pos long few small sends =
    let (c, d, cs, shape) = chunks_several q.rtp.payload_size (b ∷ bytes) long in
    let r : Rtp = (fill_header e false q.rtp).0 in
    let seq = seq-fill_header e q.rtp in
    let n = length (b ∷ bytes) in
    let count = chunks_few n q.rtp.payload_size 4999 (b ∷ bytes) few in
    let common =
      fill_header-common e q.rtp
      ∙ ap (λ (s : ℕ). common_of q.rtp.payload s (sent_timestamp e q.rtp) q.rtp.ssrc) (sym seq) in
    let (frames, got, two, joined) =
      deliver_pieces q.rtp.payload (sent_timestamp e q.rtp) q.rtp.ssrc q.rce_flags r
        (fill_header e false q.rtp).1 (pieces q (b ∷ bytes)) (b ∷ bytes) common
        (omega (arith, ap length shape)) on (omega (arith, seq))
        (sent_timestamp-IsU32 e (start_clock e q.rtp)) rf (omega arith)
        (chunks-AllShort n q.rtp.payload_size 9223372036854000000 (b ∷ bytes) small)
        (concat-chunks n q.rtp.payload_size (b ∷ bytes)) (omega arith) in
    (
      record q { active = none; rtp = advance_by (length (pieces q (b ∷ bytes))) r },
      sent_wire e (b ∷ bytes) q,
      frames,
      push_media_frame_fragments e q sendto b bytes on plain pos long few sends,
      got,
      two,
      joined,
    )
