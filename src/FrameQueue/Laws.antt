-- ===== src/FrameQueue/Laws.antt =====
-- What a transaction sends when messages are queued one after another, the last with the marker bit.
use uvg_rtp.Prelude.{
  ℕ, zero, suc, ◌+◌, ◌≤◌, ◌<◌, ◌≡◌, ◌≢◌, refl, sym, ap, ◌∙◌, arith, Bool, true, false, some, List,
  [], ◌∷◌, ◌++◌, map, append-nil, append_assoc, length, length-append, get_or, if◌then◌else◌,
  flag_set, ◌>>=◌,
}
use uvg_rtp.Util.{ok, rce_srtp_authenticate_rtp}
use uvg_rtp.Rtp.Context.{Rtp, update_sequence, inc_sequence, inc_sent_pkts}
use uvg_rtp.FrameQueue.{
  Buf, header_at, octets, Transaction, FrameQueue, Queued, max_msg_count, set_marker_bit,
  update_rtp_header, enqueue_buffers, enqueue_message, packet_octets, mark_last, more_than_one,
  flushed,
}

-- Messages queued in a row; an error ends the row.
unfoldable pub enqueue_all : List (List ℕ) → FrameQueue → Queued
enqueue_all [] q = some (ok, q)
enqueue_all (c ∷ []) q = enqueue_message c true q
enqueue_all (c ∷ d ∷ cs) q =
    let rest = λ (q' : FrameQueue). enqueue_all (d ∷ cs) q' in
    do (ret, q') ← enqueue_message c false q; elim ret [ ok ↦ rest q' | other ↦ some (other, q') ]

-- The sender's state after one more packet.
abbrev pub advance : Rtp → Rtp
advance r = inc_sent_pkts (inc_sequence r)

abbrev pub advance_by : ℕ → Rtp → Rtp
advance_by zero r = r
advance_by (suc n) r = advance_by n (advance r)

-- The headers of a row of messages, and its packets when n headers are there before.
abbrev pub headers_from : List ℕ → Rtp → List (List ℕ) → List (List ℕ)
headers_from common r [] = []
headers_from common r (c ∷ []) = set_marker_bit (update_sequence r common) ∷ []
headers_from common r (c ∷ d ∷ cs) =
    update_sequence r common ∷ headers_from common (advance r) (d ∷ cs)

abbrev pub packets_from : ℕ → List (List ℕ) → List (List Buf)
packets_from n [] = []
packets_from n (c ∷ cs) = (header_at n ∷ (octets c ∷ [])) ∷ packets_from (suc n) cs

-- The packets on the wire: the common header with the packet's sequence number, the marker bit in
-- the last, and the message.
abbrev pub wire_from : List ℕ → Rtp → List (List ℕ) → List (List ℕ)
wire_from common r [] = []
wire_from common r (c ∷ []) = (set_marker_bit (update_sequence r common) ++ c) ∷ []
wire_from common r (c ∷ d ∷ cs) =
    (update_sequence r common ++ c) ∷ wire_from common (advance r) (d ∷ cs)

abbrev pub AllNonempty : List (List ℕ) → Type 0
AllNonempty [] = Unit {0}
AllNonempty (c ∷ cs) = (c ≢ []) × AllNonempty cs

abbrev grown : FrameQueue → Transaction → List ℕ → List ℕ → FrameQueue
grown q t header c = record q {
  active = some (record t {
    packets = t.packets ++ ((header_at (length t.rtp_headers) ∷ (octets c ∷ [])) ∷ []);
    rtp_headers = t.rtp_headers ++ (header ∷ []);
  });
  rtp = advance q.rtp;
}

enqueue_message_plain :
    (q : FrameQueue) (t : Transaction) (c : List ℕ) (m : Bool)
    → q.active ≡ some t
    → flag_set q.rce_flags rce_srtp_authenticate_rtp ≡ false
    → c ≢ []
    → length t.rtp_headers < max_msg_count
    → enqueue_message c m q
      ≡ some (
        ok,
        grown q t
            (if m
              then set_marker_bit (update_sequence q.rtp t.rtp_common)
              else update_sequence q.rtp t.rtp_common)
            c,
      )
unfolding enqueue_message enqueue_buffers update_rtp_header
enqueue_message_plain q t [] m e plain ne room = absurd (ne refl)
enqueue_message_plain q t (b ∷ c) true e plain ne room = ground arith
enqueue_message_plain q t (b ∷ c) false e plain ne room = ground arith

abbrev state_of : FrameQueue → Transaction → Rtp → List (List Buf) → List (List ℕ) → FrameQueue
state_of q t r packets headers = record q {
  active = some (record t { packets = packets; rtp_headers = headers });
  rtp = r;
}

same_state :
    {packets packets' : List (List Buf)} {headers headers' : List (List ℕ)} (q : FrameQueue)
    (t : Transaction) (r : Rtp)
    → packets ≡ packets'
    → headers ≡ headers'
    → ◌≡◌ {A = Queued}
        (some (ok, state_of q t r packets headers))
        (some (ok, state_of q t r packets' headers'))
same_state q t r e d = λ i. some (ok, state_of q t r (e i) (d i))

length-snoc : (xs : List (List ℕ)) (x : List ℕ) → length (xs ++ (x ∷ [])) ≡ suc (length xs)
length-snoc xs x = omega (arith, length-append xs (x ∷ []))

-- A row of messages grows the transaction by its headers and packets.
pub enqueue_all_lem :
    (cs : List (List ℕ)) (q : FrameQueue) (t : Transaction)
    → q.active ≡ some t
    → flag_set q.rce_flags rce_srtp_authenticate_rtp ≡ false
    → AllNonempty cs
    → length t.rtp_headers + length cs ≤ max_msg_count
    → enqueue_all cs q
      ≡ some (
        ok,
        record q {
          active = some (record t {
            packets = t.packets ++ packets_from (length t.rtp_headers) cs;
            rtp_headers = t.rtp_headers ++ headers_from t.rtp_common q.rtp cs;
          });
          rtp = advance_by (length cs) q.rtp;
        },
      )
unfolding enqueue_all
enqueue_all_lem [] q t e plain ne room =
    ground (arith, append-nil t.packets, append-nil t.rtp_headers)
enqueue_all_lem (c ∷ []) q t e plain ne room =
    enqueue_message_plain q t c true e plain ne.0 (omega arith)
enqueue_all_lem (c ∷ d ∷ cs) q t e plain ne room =
    let h : List ℕ = update_sequence q.rtp t.rtp_common in
    let n : ℕ = length t.rtp_headers in
    let x : List Buf = header_at n ∷ (octets c ∷ []) in
    let t' : Transaction = record t {
      packets = t.packets ++ (x ∷ []);
      rtp_headers = t.rtp_headers ++ (h ∷ []);
    } in
    rw (enqueue_message_plain q t c false e plain ne.0 (omega arith)) (
      enqueue_all_lem (d ∷ cs) (grown q t h c) t' refl plain ne.1
        (omega (arith, length-snoc t.rtp_headers h))
      ∙ same_state q t (advance_by (length (c ∷ d ∷ cs)) q.rtp)
          (ap (λ (k : ℕ). (t.packets ++ (x ∷ [])) ++ packets_from k (d ∷ cs))
              (length-snoc t.rtp_headers h)
            ∙ append_assoc t.packets (x ∷ []) (packets_from (suc n) (d ∷ cs)))
          (append_assoc t.rtp_headers (h ∷ []) _))

set_marker_bit_twice : (h : List ℕ) → set_marker_bit (set_marker_bit h) ≡ set_marker_bit h
unfolding set_marker_bit
set_marker_bit_twice [] = refl
set_marker_bit_twice (a ∷ []) = refl
set_marker_bit_twice (a ∷ b ∷ h) = ground arith

mark_last-headers_from :
    (common : List ℕ) (r : Rtp) (cs : List (List ℕ))
    → mark_last (headers_from common r cs) ≡ headers_from common r cs
unfolding mark_last
mark_last-headers_from common r [] = refl
mark_last-headers_from common r (c ∷ []) = ap (λ (h : List ℕ). h ∷ []) (set_marker_bit_twice _)
mark_last-headers_from common r (c ∷ d ∷ []) =
    ap (λ (hs : List (List ℕ)). update_sequence r common ∷ hs)
      (mark_last-headers_from common (advance r) (d ∷ []))
mark_last-headers_from common r (c ∷ d ∷ e ∷ cs) =
    ap (λ (hs : List (List ℕ)). update_sequence r common ∷ hs)
      (mark_last-headers_from common (advance r) (d ∷ e ∷ cs))

get_or-append : (pre hs : List (List ℕ)) (h : List ℕ) → get_or (pre ++ (h ∷ hs)) (length pre) [] ≡ h
get_or-append [] hs h = refl
get_or-append (x ∷ pre) hs h = get_or-append pre hs h

packet_octets-packets_from :
    (pre : List (List ℕ)) (common : List ℕ) (r : Rtp) (cs : List (List ℕ))
    → map (packet_octets (pre ++ headers_from common r cs)) (packets_from (length pre) cs)
      ≡ wire_from common r cs
unfolding packet_octets
packet_octets-packets_from pre common r [] = refl
packet_octets-packets_from pre common r (c ∷ []) =
    rw (get_or-append pre [] (set_marker_bit (update_sequence r common)), append-nil c)
packet_octets-packets_from pre common r (c ∷ d ∷ cs) =
    let h : List ℕ = update_sequence r common in
    let hs : List (List ℕ) = headers_from common (advance r) (d ∷ cs) in
    let tail : map (packet_octets (pre ++ (h ∷ hs))) (packets_from (suc (length pre)) (d ∷ cs))
        ≡ wire_from common (advance r) (d ∷ cs) =
      ap (λ (H : List (List ℕ)). map (packet_octets H) (packets_from (suc (length pre)) (d ∷ cs)))
        (sym (append_assoc pre (h ∷ []) hs))
      ∙ ap (λ (k : ℕ). map (packet_octets ((pre ++ (h ∷ [])) ++ hs)) (packets_from k (d ∷ cs)))
          (sym (length-snoc pre h))
      ∙ packet_octets-packets_from (pre ++ (h ∷ [])) common (advance r) (d ∷ cs) in
    let head : packet_octets (pre ++ (h ∷ hs)) (header_at (length pre) ∷ (octets c ∷ [])) ≡ h ++ c =
      rw (get_or-append pre hs h, append-nil c) in
    λ i. head i ∷ tail i

more_than_one-cons :
    (n : ℕ) (c d : List ℕ) (cs : List (List ℕ)) → more_than_one (packets_from n (c ∷ d ∷ cs)) ≡ true
unfolding more_than_one
more_than_one-cons n c d cs = refl

-- A fresh transaction that a row of two or more messages was queued in flushes to these packets.
pub flushed-row :
    (t : Transaction) (r : Rtp) (c d : List ℕ) (cs : List (List ℕ))
    → flushed (record t {
      packets = packets_from 0 (c ∷ d ∷ cs);
      rtp_headers = headers_from t.rtp_common r (c ∷ d ∷ cs);
    })
      ≡ wire_from t.rtp_common r (c ∷ d ∷ cs)
unfolding flushed
flushed-row t r c d cs =
    let hs : List (List ℕ) = headers_from t.rtp_common r (c ∷ d ∷ cs) in
    let ps : List (List Buf) = packets_from 0 (c ∷ d ∷ cs) in
    ap (λ (b : Bool). map (packet_octets (if b then mark_last hs else hs)) ps)
      (more_than_one-cons 0 c d cs)
    ∙ ap (λ (h : List (List ℕ)). map (packet_octets h) ps)
        (mark_last-headers_from t.rtp_common r (c ∷ d ∷ cs))
    ∙ packet_octets-packets_from [] t.rtp_common r (c ∷ d ∷ cs)
