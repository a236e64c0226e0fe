-- ===== src/Rtp/RoundTrip.antt =====
-- `packet_handler` takes apart every packet that is written as RFC 3550 says.
use uvg_rtp.Prelude.{
  ℕ, zero, suc, ◌+◌, ◌-◌, ◌*◌, ◌<◌, ◌≡◌, refl, sym, ap, ◌∙◌, arith, Option, none, some, List, [],
  ◌∷◌, ◌++◌, length, get_elem?, replicate, take_exact-append, drop-append, length-append,
  append_assoc, length-replicate,
}
use uvg_rtp.Util.{pkt_modified}
use uvg_rtp.Frame.{RtpHeader, ExtHeader, RtpFrame, live}
use uvg_rtp.Rtp.Receive.{
  read_header, read_csrc, read_ext, read_padding, read_tail, read_body, packet_handler,
}
use uvg_rtp.Rtp.Encode.{
  header_bytes, csrc_bytes, octets_reversed, ext_bytes, padding_bytes, packet_bytes, HeaderFits,
  AllU32, ExtFits, PaddingFits, FrameFits,
}

read_header-header_bytes :
    (h : RtpHeader) (rest : List ℕ) → HeaderFits h → read_header (header_bytes h ++ rest) ≡ some h
unfolding read_header
read_header-header_bytes h rest w = ground arith

read_csrc-csrc_bytes :
    (vs rest : List ℕ)
    → AllU32 vs
    → read_csrc (length vs) (csrc_bytes vs ++ rest) ≡ some (octets_reversed vs, rest)
unfolding read_csrc
read_csrc-csrc_bytes [] rest w = refl
read_csrc-csrc_bytes (v ∷ vs) rest w = rw (read_csrc-csrc_bytes vs rest w.1) (ground arith)

read_ext-ext_bytes :
    (f : RtpFrame) (e : Option ExtHeader) (k : ℕ) (rest : List ℕ)
    → ExtFits f.header.ext e
    → f.ext ≡ none
    → f.payload_len ≡ length (ext_bytes e) + k
    → k < 18446744073709400000
    → read_ext f (ext_bytes e ++ rest) ≡ some (record f { ext = e; payload_len = k }, rest)
unfolding read_ext
read_ext-ext_bytes f none k rest x n l b = ground arith
read_ext-ext_bytes f (some e) k rest (x, t, n, w, s) none' l b =
    ground (arith, take_exact-append e.bytes rest, drop-append e.bytes rest)

get_elem?-append_last : (xs : List ℕ) (x : ℕ) → get_elem? (xs ++ (x ∷ [])) (length xs) ≡ some x
get_elem?-append_last [] x = refl
get_elem?-append_last (y ∷ xs) x = get_elem?-append_last xs x

last_octet :
    (packet front payload : List ℕ) (n : ℕ)
    → packet ≡ front ++ (payload ++ padding_bytes (suc n))
    → get_elem? packet (length packet - 1) ≡ some (suc n)
last_octet packet front payload n e =
    let body : List ℕ = front ++ (payload ++ replicate n 0) in
    let split : packet ≡ body ++ (suc n ∷ []) = e ∙ sym (simp append_assoc) in
    let len : length packet - 1 ≡ length body =
      omega (arith, ap length split, length-append body (suc n ∷ [])) in
    rw len (rw split (get_elem?-append_last body (suc n)))

read_padding-padding_bytes :
    (packet front payload : List ℕ) (f : RtpFrame) (n : ℕ)
    → packet ≡ front ++ (payload ++ padding_bytes n)
    → PaddingFits f.header.padding n (length payload)
    → f.padding_len ≡ 0
    → f.payload_len ≡ length payload + n
    → f.payload_len < 18446744073709400000
    → read_padding packet f (payload ++ padding_bytes n)
      ≡ some (
        pkt_modified,
        live (record f {
          padding_len = n;
          payload_len = length payload;
          payload = payload;
          dgram = packet;
        }),
      )
unfolding read_padding
read_padding-padding_bytes packet front payload f zero e w z l b =
    ground (arith, take_exact-append payload [])
read_padding-padding_bytes packet front payload f (suc n) e w z l b =
    ground (
      arith,
      last_octet packet front payload n e,
      take_exact-append payload (padding_bytes (suc n)),
    )

read_tail-bytes :
    (packet front payload : List ℕ) (f : RtpFrame) (e : Option ExtHeader) (n : ℕ)
    → packet ≡ front ++ (ext_bytes e ++ (payload ++ padding_bytes n))
    → ExtFits f.header.ext e
    → PaddingFits f.header.padding n (length payload)
    → f.ext ≡ none
    → f.padding_len ≡ 0
    → f.payload_len ≡ length (ext_bytes e) + (length payload + n)
    → length payload + n < 18446744073709400000
    → read_tail packet f (ext_bytes e ++ (payload ++ padding_bytes n))
      ≡ some (
        pkt_modified,
        live (record f {
          ext = e;
          padding_len = n;
          payload_len = length payload;
          payload = payload;
          dgram = packet;
        }),
      )
unfolding read_tail
read_tail-bytes packet front payload f e n p x w z zp l b =
    rw (read_ext-ext_bytes f e (length payload + n) (payload ++ padding_bytes n) x z l b) (
      read_padding-padding_bytes packet (front ++ ext_bytes e) payload
        (record f { ext = e; payload_len = length payload + n }) n
        (p ∙ sym (append_assoc front (ext_bytes e) (payload ++ padding_bytes n))) w zp refl b)

length-csrc_bytes : (vs : List ℕ) → length (csrc_bytes vs) ≡ length vs * 4
length-csrc_bytes [] = refl
length-csrc_bytes (v ∷ vs) = omega (arith, length-csrc_bytes vs)

length-padding_bytes : (n : ℕ) → length (padding_bytes n) ≡ n
length-padding_bytes zero = refl
length-padding_bytes (suc n) =
    omega (arith, length-append (replicate n 0) (suc n ∷ []), length-replicate {A = ℕ} n 0)

length-ext_bytes-le : (x : ℕ) (e : Option ExtHeader) → ExtFits x e → length (ext_bytes e) < 65540
length-ext_bytes-le x none w = omega arith
length-ext_bytes-le x (some e) (one, t, n, w, s) = omega arith

abbrev frame_of : RtpHeader → List ℕ → Option ExtHeader → ℕ → ℕ → List ℕ → List ℕ → RtpFrame
frame_of h vs e n len payload packet = record {
  header = h;
  csrc = vs;
  ext = e;
  padding_len = n;
  payload_len = len;
  payload = payload;
  dgram = packet;
}

length-rest :
    (e : Option ExtHeader) (payload : List ℕ) (n : ℕ)
    → length (ext_bytes e ++ (payload ++ padding_bytes n))
      ≡ length (ext_bytes e) + (length payload + n)
length-rest e payload n = omega (
  arith,
  length-append (ext_bytes e) (payload ++ padding_bytes n),
  length-append payload (padding_bytes n),
  length-padding_bytes n,
)

-- The part behind the fixed header.
read_body-bytes :
    (packet front vs payload : List ℕ) (h : RtpHeader) (e : Option ExtHeader) (n len : ℕ)
    → packet ≡ front ++ (csrc_bytes vs ++ (ext_bytes e ++ (payload ++ padding_bytes n)))
    → h.cc ≡ length vs
    → h.cc < 16
    → AllU32 vs
    → ExtFits h.ext e
    → PaddingFits h.padding n (length payload)
    → n < 256
    → length payload < 9223372036854000000
    → len ≡ length (csrc_bytes vs ++ (ext_bytes e ++ (payload ++ padding_bytes n)))
    → read_body packet
        (frame_of h [] none 0 len [] [])
        (csrc_bytes vs ++ (ext_bytes e ++ (payload ++ padding_bytes n)))
      ≡ some
          (pkt_modified, live (frame_of h (octets_reversed vs) e n (length payload) payload packet))
unfolding read_body
read_body-bytes packet front [] payload h e n len p c cb w x pw nb pb l = ground (
  arith,
  read_tail-bytes packet front payload (frame_of h [] none 0 len [] []) e n p x pw refl refl
      (l ∙ length-rest e payload n) (omega arith),
)
read_body-bytes packet front (v ∷ vs) payload h e n len p c cb w x pw nb pb l = ground (
  arith,
  length-rest e payload n,
  length-ext_bytes-le h.ext e x,
  length-append (csrc_bytes (v ∷ vs)) (ext_bytes e ++ (payload ++ padding_bytes n)),
  length-csrc_bytes (v ∷ vs),
  read_csrc-csrc_bytes (v ∷ vs) (ext_bytes e ++ (payload ++ padding_bytes n)) w,
  read_tail-bytes packet (front ++ csrc_bytes (v ∷ vs)) payload
      (frame_of h (octets_reversed (v ∷ vs)) none 0 (length (ext_bytes e) + (length payload + n)) []
        [])
      e n (p ∙ sym (append_assoc front (csrc_bytes (v ∷ vs)) _)) x pw refl refl refl (omega arith),
)

padding-lt : (p n k : ℕ) → PaddingFits p n k → n < 256
padding-lt p zero k w = omega arith
padding-lt p (suc n) k w = w.1

-- A frame whose fields agree with one another, written out as RFC 3550 lays an RTP packet out, is
-- what `packet_handler` reads back from the packet: header, extension, padding and payload, with the
-- packet as its datagram; but of each CSRC entry the four octets come in reverse order.
pub packet_handler-packet_bytes :
    (f : RtpFrame)
    → FrameFits f
    → packet_handler (packet_bytes f)
      ≡ some
          (pkt_modified, live (record f { csrc = octets_reversed f.csrc; dgram = packet_bytes f }))
unfolding packet_handler
packet_handler-packet_bytes f w =
    let rest : List ℕ =
      csrc_bytes f.csrc ++ (ext_bytes f.ext ++ (f.payload ++ padding_bytes f.padding_len)) in
    ground (
      arith,
      read_header-header_bytes f.header rest w.header_fits,
      read_body-bytes (packet_bytes f) (header_bytes f.header) f.csrc f.payload f.header f.ext
          f.padding_len (length rest) refl w.csrc_counted w.header_fits.cc_bits w.csrc_fits
          w.ext_fits (rw w.payload_counted at w.padding_fits)
          (padding-lt f.header.padding f.padding_len f.payload_len w.padding_fits) (omega arith)
          refl,
    )
