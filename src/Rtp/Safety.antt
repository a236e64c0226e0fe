-- ===== src/Rtp/Safety.antt =====
-- Which datagrams `packet_handler` can take without a read past their end.
use uvg_rtp.Prelude.{
  ℕ, zero, suc, ◌+◌, ◌-◌, ◌*◌, ◌/◌, ◌%◌, ◌≤◌, ◌<◌, ◌≡◌, ◌≢◌, refl, ◌∙◌, arith, none, some, List, [],
  ◌∷◌, length, get_elem?, drop, take_exact_total, length-drop, be32, be16, leb, if◌then◌else◌,
  sub64,
}
use native.Mathlib.Decide.{dec_le}
use uvg_rtp.Frame.{RtpHeader, RtpFrame, alloc_rtp_frame}
use uvg_rtp.Rtp.Receive.{
  read_header, read_csrc, read_ext, read_padding, read_tail, read_body, packet_handler,
}

read_csrc_total :
    (n : ℕ) (p : List ℕ)
    → n * 4 ≤ length p
    → (vs : List ℕ) × (rest : List ℕ) × (read_csrc n p ≡ some (vs, rest))
      × (length rest + n * 4 ≡ length p)
unfolding read_csrc
read_csrc_total zero p h = ([], p, refl, omega arith)
read_csrc_total (suc n) (a ∷ b ∷ c ∷ d ∷ p) h =
    let (vs, rest, e, l) = read_csrc_total n p (omega arith) in
    (be32 d c b a ∷ vs, rest, rw e, omega arith)
read_csrc_total (suc n) p h = absurd (omega arith)

get_elem?_total : (p : List ℕ) (i : ℕ) → i < length p → (b : ℕ) × (get_elem? p i ≡ some b)
get_elem?_total [] i h = absurd (omega arith)
get_elem?_total (x ∷ p) zero h = (x, refl)
get_elem?_total (x ∷ p) (suc i) h = get_elem?_total p i (omega arith)

read_header_total :
    (b0 : ℕ) (q : List ℕ)
    → 11 ≤ length q
    → (h : RtpHeader) × (read_header (b0 ∷ q) ≡ some h) × (h.cc ≡ b0 % 16) × (h.ext ≡ b0 / 16 % 2)
unfolding read_header
read_header_total b0 q long =
    let (b1, e1) = get_elem?_total q 0 (omega arith) in
    let (b2, e2) = get_elem?_total q 1 (omega arith) in
    let (b3, e3) = get_elem?_total q 2 (omega arith) in
    let (b4, e4) = get_elem?_total q 3 (omega arith) in
    let (b5, e5) = get_elem?_total q 4 (omega arith) in
    let (b6, e6) = get_elem?_total q 5 (omega arith) in
    let (b7, e7) = get_elem?_total q 6 (omega arith) in
    let (b8, e8) = get_elem?_total q 7 (omega arith) in
    let (b9, e9) = get_elem?_total q 8 (omega arith) in
    let (b10, e10) = get_elem?_total q 9 (omega arith) in
    let (b11, e11) = get_elem?_total q 10 (omega arith) in
    (
      record {
        version = b0 / 64 % 4;
        padding = b0 / 32 % 2;
        ext = b0 / 16 % 2;
        cc = b0 % 16;
        marker = if leb 128 b1 then 1 else 0;
        payload = b1 % 128;
        seq = be16 b2 b3;
        timestamp = be32 b4 b5 b6 b7;
        ssrc = be32 b8 b9 b10 b11;
      },
      rw (e1, e2, e3, e4, e5, e6, e7, e8, e9, e10, e11),
      refl,
      refl,
    )

read_padding_total :
    (packet ptr : List ℕ) (f : RtpFrame)
    → 1 ≤ length packet
    → f.payload_len ≡ length ptr
    → length ptr < 18446744073709551616
    → read_padding packet f ptr ≢ none
unfolding read_padding
read_padding_total packet ptr f long l b =
    let (n, e) = get_elem?_total packet (length packet - 1) (omega arith) in
    ground (
      arith,
      e,
      take_exact_total (length ptr) ptr (omega arith),
      take_exact_total (length ptr - n) ptr (omega arith),
    )

read_tail_total :
    (packet ptr : List ℕ) (f : RtpFrame)
    → 1 ≤ length packet
    → f.header.ext ≡ 0
    → f.payload_len ≡ length ptr
    → length ptr < 18446744073709551616
    → read_tail packet f ptr ≢ none
unfolding read_tail read_ext
read_tail_total packet ptr f long x l b = ground (arith, read_padding_total packet ptr f long l b)

read_body_total :
    (packet ptr : List ℕ) (f : RtpFrame)
    → 1 ≤ length packet
    → f.header.ext ≡ 0
    → f.header.cc < 16
    → f.payload_len ≡ length ptr
    → length ptr < 9223372036854775808
    → read_body packet f ptr ≢ none
unfolding read_body
read_body_total packet ptr f long x cb l b = elim (dec_le (f.header.cc * 4) (length ptr)) [
  | yes fits ↦
      let (vs, rest, e, n) = read_csrc_total f.header.cc ptr fits in
      ground (
        arith,
        e,
        read_tail_total packet ptr f long x l (omega arith),
        read_tail_total packet rest
            (record f { csrc = vs; payload_len = sub64 f.payload_len (f.header.cc * 4) }) long x
            (unfold sub64 in omega arith) (omega arith),
      )
  | no short ↦ ground (arith, read_tail_total packet ptr f long x l (omega arith))
]

-- A datagram that is not empty and shorter than 2^63 octets, of which the X bit is not set, is taken
-- apart, or refused, without a read past its end, whatever its other octets are.
pub packet_handler_in_bounds :
    (b0 : ℕ) (q : List ℕ)
    → length (b0 ∷ q) < 9223372036854775808
    → b0 / 16 % 2 ≡ 0
    → packet_handler (b0 ∷ q) ≢ none
unfolding packet_handler
packet_handler_in_bounds b0 q b x = elim (dec_le 11 (length q)) [
  | yes long ↦
      let (h, e, hc, hx) = read_header_total b0 q long in
      ground (
        arith,
        e,
        read_body_total (b0 ∷ q) (drop 11 q)
            (record alloc_rtp_frame { header = h; payload_len = suc (length q) - 12 }) (omega arith)
            (hx ∙ x) (omega arith) (omega (arith, length-drop 11 q))
            (omega (arith, length-drop 11 q)),
      )
  | no short ↦ ground arith
]

read_tail_overrun :
    (packet ptr : List ℕ) (f : RtpFrame)
    → f.header.ext ≡ 1
    → length ptr < 4
    → read_tail packet f ptr ≡ none
unfolding read_tail read_ext
read_tail_overrun packet [] f x short = ground arith
read_tail_overrun packet (a ∷ []) f x short = ground arith
read_tail_overrun packet (a ∷ b ∷ []) f x short = ground arith
read_tail_overrun packet (a ∷ b ∷ c ∷ []) f x short = ground arith
read_tail_overrun packet (a ∷ b ∷ c ∷ d ∷ p) f x short = absurd (omega arith)

read_body_overrun :
    (packet ptr : List ℕ) (f : RtpFrame)
    → f.header.ext ≡ 1
    → f.header.cc < 16
    → f.payload_len ≡ length ptr
    → f.header.cc * 4 ≤ length ptr
    → length ptr < f.header.cc * 4 + 4
    → read_body packet f ptr ≡ none
unfolding read_body
read_body_overrun packet ptr f x cb l long short =
    let (vs, rest, e, n) = read_csrc_total f.header.cc ptr long in
    ground (
      arith,
      e,
      read_tail_overrun packet ptr f x,
      read_tail_overrun packet rest
          (record f { csrc = vs; payload_len = sub64 f.payload_len (f.header.cc * 4) }) x
          (omega arith),
    )

-- The X bit is taken on trust: in a datagram of version 2 with that bit set, where the fixed header and
-- the CSRC entries leave fewer than the four octets of an extension header, `packet_handler` reads
-- past the datagram.
pub packet_handler_overrun :
    (b0 : ℕ) (q : List ℕ)
    → b0 / 64 % 4 ≡ 2
    → b0 / 16 % 2 ≡ 1
    → 12 + b0 % 16 * 4 ≤ length (b0 ∷ q)
    → length (b0 ∷ q) < 16 + b0 % 16 * 4
    → packet_handler (b0 ∷ q) ≡ none
unfolding packet_handler
packet_handler_overrun b0 q v x long short =
    let (h, e, hc, hx) = read_header_total b0 q (omega arith) in
    ground (
      arith,
      e,
      read_body_overrun (b0 ∷ q) (drop 11 q)
          (record alloc_rtp_frame { header = h; payload_len = suc (length q) - 12 }) (hx ∙ x)
          (omega arith) (omega (arith, length-drop 11 q)) (omega (arith, length-drop 11 q))
          (omega (arith, length-drop 11 q)),
    )
