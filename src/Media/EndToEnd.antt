-- ===== src/Media/EndToEnd.antt =====
-- A fragmented frame from push_media_frame() over the RTP handler to the media handler.
use uvg_rtp.Prelude.{
  take, sym, ◌∙◌, ℕ, suc, ◌+◌, ◌%◌, ◌<◌, ◌≡◌, refl, ap, arith, Option, none, some, List, [], ◌∷◌,
  ◌++◌, append-nil, length, length-append, ◌>>=◌, put16, put32, IsU16, IsU32,
}
use uvg_rtp.Frame.{RtpHeader, RtpFrame, null, freed, live}
use uvg_rtp.Rtp.Context.{Rtp, update_sequence, inc_sequence, inc_sent_pkts}
use uvg_rtp.Rtp.Receive.{packet_handler, Handled}
use uvg_rtp.Rtp.Encode.{header_bytes, packet_bytes, FrameFits}
use uvg_rtp.Rtp.RoundTrip.{packet_handler-packet_bytes}
use uvg_rtp.FrameQueue.{set_marker_bit, concat}
use uvg_rtp.FrameQueue.Laws.{wire_from, advance}
use uvg_rtp.Media.Send.{AllShort}
use uvg_rtp.Media.InOrder.{Fragments, payloads, total_len}

-- The header of a media packet, as fill_header() and update_sequence() leave it.
abbrev pub media_header : ℕ → ℕ → ℕ → ℕ → RtpHeader
media_header payload seq timestamp ssrc = record {
  version = 2;
  padding = 0;
  ext = 0;
  cc = 0;
  marker = 0;
  payload = payload % 128;
  seq = seq;
  timestamp = timestamp;
  ssrc = ssrc;
}

abbrev pub media_frame : RtpHeader → ℕ → List ℕ → RtpFrame
media_frame h m c = record {
  header = record h { marker = m };
  csrc = [];
  ext = none;
  padding_len = 0;
  payload_len = length c;
  payload = c;
  dgram = header_bytes (record h { marker = m }) ++ c;
}

-- The frames that the packets of `wire_from` are taken apart to.
abbrev pub received : ℕ → ℕ → ℕ → Rtp → List (List ℕ) → List RtpFrame
received payload timestamp ssrc r [] = []
received payload timestamp ssrc r (c ∷ []) =
    media_frame (media_header payload r.seq timestamp ssrc) 1 c ∷ []
received payload timestamp ssrc r (c ∷ d ∷ cs) =
    media_frame (media_header payload r.seq timestamp ssrc) 0 c
    ∷ received payload timestamp ssrc (advance r) (d ∷ cs)

-- The RTP handler on a row of packets, each of which must yield a frame.
unfoldable pub frame_of : Handled → Option RtpFrame
frame_of none = none
frame_of (some (ret, null)) = none
frame_of (some (ret, freed)) = none
frame_of (some (ret, live f)) = some f

unfoldable pub receive_all : List (List ℕ) → Option (List RtpFrame)
unfolding frame_of
receive_all [] = some []
receive_all (p ∷ ps) = do f ← frame_of (packet_handler p); fs ← receive_all ps; some (f ∷ fs)

parse_one :
    (payload seq timestamp ssrc m : ℕ) (c : List ℕ)
    → IsU16 seq
    → IsU32 timestamp
    → IsU32 ssrc
    → m < 2
    → length c < 9223372036854000000
    → frame_of (
        packet_handler
          (header_bytes (record (media_header payload seq timestamp ssrc) { marker = m }) ++ c))
      ≡ some (media_frame (media_header payload seq timestamp ssrc) m c)
unfolding frame_of
parse_one payload seq timestamp ssrc m c sf tf rf mf lf =
    let f : RtpFrame = media_frame (media_header payload seq timestamp ssrc) m c in
    let same : packet_bytes f ≡ header_bytes f.header ++ c =
      ap (λ (x : List ℕ). header_bytes f.header ++ x) (append-nil c) in
    let fits : FrameFits f = record {
      header_fits = record {
        version_two = refl;
        padding_bit = omega arith;
        ext_bit = omega arith;
        cc_bits = omega arith;
        marker_bit = mf;
        payload_bits = omega arith;
        seq_fits = sf;
        timestamp_fits = tf;
        ssrc_fits = rf;
      };
      csrc_counted = refl;
      csrc_fits = tt;
      ext_fits = refl;
      padding_fits = refl;
      payload_counted = refl;
      payload_bounded = lf;
    } in
    ap frame_of (rw same at (packet_handler-packet_bytes f fits))

advance-seq : (r : Rtp) → r.seq < 65536 → (advance r).seq ≡ (r.seq + 1) % 65536
unfolding inc_sequence inc_sent_pkts
advance-seq r h = ground arith

abbrev pub common_of : ℕ → ℕ → ℕ → ℕ → List ℕ
common_of payload seq timestamp ssrc =
    128 ∷ ((payload % 128) ∷ (put16 seq ++ (put32 timestamp ++ put32 ssrc)))

update_sequence-common :
    (payload s timestamp ssrc : ℕ) (r : Rtp)
    → update_sequence r (common_of payload s timestamp ssrc)
      ≡ header_bytes (record (media_header payload r.seq timestamp ssrc) { marker = 0 })
unfolding update_sequence
update_sequence-common payload s timestamp ssrc r =
    ap (λ (x : ℕ). 128 ∷ (x ∷ (put16 r.seq ++ (put32 timestamp ++ put32 ssrc)))) (omega arith)

set_marker_bit-header :
    (payload seq timestamp ssrc : ℕ)
    → set_marker_bit
        (header_bytes (record (media_header payload seq timestamp ssrc) { marker = 0 }))
      ≡ header_bytes (record (media_header payload seq timestamp ssrc) { marker = 1 })
unfolding set_marker_bit
set_marker_bit-header payload seq timestamp ssrc =
    ap (λ (x : ℕ). 128 ∷ (x ∷ (put16 seq ++ (put32 timestamp ++ put32 ssrc)))) (omega arith)

pub receive_all-wire_from :
    (payload s timestamp ssrc : ℕ) (r : Rtp) (cs : List (List ℕ))
    → IsU16 r.seq
    → IsU32 timestamp
    → IsU32 ssrc
    → AllShort 9223372036854000000 cs
    → receive_all (wire_from (common_of payload s timestamp ssrc) r cs)
      ≡ some (received payload timestamp ssrc r cs)
unfolding receive_all
receive_all-wire_from payload s timestamp ssrc r [] sf tf rf short = refl
receive_all-wire_from payload s timestamp ssrc r (c ∷ []) sf tf rf short = rw (
  update_sequence-common payload s timestamp ssrc r,
  set_marker_bit-header payload r.seq timestamp ssrc,
  parse_one payload r.seq timestamp ssrc 1 c sf tf rf (omega arith) short.0,
)
receive_all-wire_from payload s timestamp ssrc r (c ∷ d ∷ cs) sf tf rf short = rw (
  update_sequence-common payload s timestamp ssrc r,
  parse_one payload r.seq timestamp ssrc 0 c sf tf rf (omega arith) short.0,
  receive_all-wire_from payload s timestamp ssrc (advance r) (d ∷ cs)
      (omega (arith, advance-seq r sf)) tf rf short.1,
)

take_all : (xs : List ℕ) → take (length xs) xs ≡ xs
take_all [] = refl
take_all (x ∷ xs) = ap (λ (l : List ℕ). x ∷ l) (take_all xs)

pub received-Fragments :
    (payload s i timestamp ssrc : ℕ) (r : Rtp) (c : List ℕ) (cs : List (List ℕ))
    → s < 65536
    → r.seq ≡ (s + i) % 65536
    → Fragments timestamp s i (received payload timestamp ssrc r (c ∷ cs))
received-Fragments payload s i timestamp ssrc r c [] sb e = record {
  same_ts = refl;
  in_sequence = e;
  marked = refl;
  counted = sym (ap length (take_all c));
}
received-Fragments payload s i timestamp ssrc r c (d ∷ []) sb e = (
  record { same_ts = refl; in_sequence = e; marked = refl; counted = sym (ap length (take_all c)) },
  received-Fragments payload s (suc i) timestamp ssrc (advance r) d [] sb
      (omega (arith, advance-seq r (omega arith))),
)
received-Fragments payload s i timestamp ssrc r c (d ∷ d' ∷ cs) sb e = (
  record { same_ts = refl; in_sequence = e; marked = refl; counted = sym (ap length (take_all c)) },
  received-Fragments payload s (suc i) timestamp ssrc (advance r) d (d' ∷ cs) sb
      (omega (arith, advance-seq r (omega arith))),
)

pub payloads-received :
    (payload timestamp ssrc : ℕ) (r : Rtp) (cs : List (List ℕ))
    → payloads (received payload timestamp ssrc r cs) ≡ concat cs
payloads-received payload timestamp ssrc r [] = refl
payloads-received payload timestamp ssrc r (c ∷ []) = ap (λ (l : List ℕ). l ++ []) (take_all c)
payloads-received payload timestamp ssrc r (c ∷ d ∷ cs) =
    ap (λ (l : List ℕ). l ++ payloads (received payload timestamp ssrc (advance r) (d ∷ cs)))
      (take_all c)
    ∙ ap (λ (l : List ℕ). c ++ l) (payloads-received payload timestamp ssrc (advance r) (d ∷ cs))

pub length-received :
    (payload timestamp ssrc : ℕ) (r : Rtp) (cs : List (List ℕ))
    → length (received payload timestamp ssrc r cs) ≡ length cs
length-received payload timestamp ssrc r [] = refl
length-received payload timestamp ssrc r (c ∷ []) = refl
length-received payload timestamp ssrc r (c ∷ d ∷ cs) =
    ap suc (length-received payload timestamp ssrc (advance r) (d ∷ cs))

pub total_len-received :
    (payload timestamp ssrc : ℕ) (r : Rtp) (cs : List (List ℕ))
    → total_len (received payload timestamp ssrc r cs) ≡ length (concat cs)
total_len-received payload timestamp ssrc r [] = refl
total_len-received payload timestamp ssrc r (c ∷ []) = omega (arith, length-append c [])
total_len-received payload timestamp ssrc r (c ∷ d ∷ cs) = omega (
  arith,
  length-append c (concat (d ∷ cs)),
  total_len-received payload timestamp ssrc (advance r) (d ∷ cs),
)
