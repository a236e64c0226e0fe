-- ===== src/H26x/AggregationLaws.antt =====
-- Aggregation packets at the receiver.
use uvg_rtp.Prelude.{
  ℕ, zero, suc, ◌+◌, ◌≤◌, ◌<◌, ◌≡◌, refl, sym, ap, ◌∙◌, arith, Bool, true, not, none, some, List,
  [], ◌∷◌, ◌++◌, append_assoc, ltb, leb, length, length-append, drop, drop-skip, take_exact-append,
  take_exact_short, put16, read16, read16-put16, read16-skip, flag_set,
}
use uvg_rtp.Util.{RtpError, ok, multiple_pkts_ready, rce_no_h26x_prepend_sc}
use uvg_rtp.Frame.{RtpHeader, RtpFrame}
use uvg_rtp.FrameQueue.{concat}
use uvg_rtp.H26x.Headers.{Codec, h264, h265, h266, get_payload_header_size}
use uvg_rtp.H26x.Aggregation.{
  fits_length, aggr_units, find_nalus, queue_nalus, nalu_frame, handle_aggregation_packet,
}

abbrev pub AllSmall : List (List ℕ) → Type 0
AllSmall [] = Unit {0}
AllSmall (n ∷ ns) = (length n < 65535) × AllSmall ns

-- What the first loop finds, with other octets behind the NAL units.
located : Codec → List (List ℕ) → List ℕ → List (ℕ × List ℕ)
located c [] behind = []
located c (n ∷ ns) behind =
    (length n, n ++ (concat (aggr_units c ns) ++ behind)) ∷ located c ns behind

abbrev pub nalu_frames : Codec → Bool → RtpHeader → List (List ℕ) → List RtpFrame
nalu_frames c prepend header [] = []
nalu_frames c prepend header (n ∷ ns) =
    nalu_frame c prepend header n ∷ nalu_frames c prepend header ns

fits_small : (c : Codec) (n : ℕ) → n < 65535 → fits_length c n ≡ true
unfolding fits_length
fits_small h264 n h = ground arith
fits_small h265 n h = ground arith
fits_small h266 n h = ground arith

aggr_units-cons :
    (c : Codec) (n : List ℕ) (ns : List (List ℕ))
    → length n < 65535
    → concat (aggr_units c (n ∷ ns)) ≡ put16 (length n) ++ (n ++ concat (aggr_units c ns))
unfolding aggr_units
aggr_units-cons c n ns h = rw (fits_small c (length n) h) refl

find_nalus-step :
    (fuel n i size payload_len : ℕ) (payload : List ℕ) (ret : RtpError) (found : List (ℕ × List ℕ))
    → i < payload_len
    → read16 payload i ≡ some n
    → size + n ≤ payload_len
    → find_nalus fuel payload payload_len (i + (n + 2)) (size + n) ≡ some (ret, found)
    → find_nalus (suc fuel) payload payload_len i size
      ≡ some (ret, (n, drop (i + 2) payload) ∷ found)
unfolding find_nalus
find_nalus-step fuel n i size payload_len payload ret found inside read fits more =
    let a : ltb i payload_len ≡ true = ground arith in
    let b : leb (size + n) payload_len ≡ true = ground arith in rw (a, read, b, more) refl

find_nalus-end :
    (fuel i size payload_len : ℕ) (payload : List ℕ)
    → payload_len ≤ i
    → find_nalus (suc fuel) payload payload_len i size ≡ some (ok, [])
unfolding find_nalus
find_nalus-end fuel i size payload_len payload e = ground arith

empty_units : (c : Codec) → length (concat (aggr_units c [])) ≡ 0
unfolding aggr_units
empty_units c = refl

at_start : (pre : List ℕ) → length pre ≡ length pre + 0
at_start pre = omega arith

find_nalus-past :
    (fuel i size payload_len : ℕ) (payload : List ℕ)
    → payload_len ≤ i
    → 1 ≤ fuel
    → find_nalus fuel payload payload_len i size ≡ some (ok, [])
find_nalus-past zero i size payload_len payload past some_fuel = absurd (omega arith)
find_nalus-past (suc fuel) i size payload_len payload past some_fuel =
    find_nalus-end fuel i size payload_len payload past

queue_nalus-short :
    (c : Codec) (prepend : Bool) (header : RtpHeader) (n : ℕ) (nalu : List ℕ)
    → length nalu < n
    → queue_nalus c prepend header ((n, nalu) ∷ []) ≡ none
unfolding queue_nalus
queue_nalus-short c prepend header n nalu short = rw (take_exact_short n nalu short) refl

find_nalus-units :
    (c : Codec) (pre behind : List ℕ) (ns : List (List ℕ)) (fuel size : ℕ)
    → AllSmall ns
    → length ns < fuel
    → size ≤ length pre
    → find_nalus fuel
        (pre ++ (concat (aggr_units c ns) ++ behind))
        (length pre + length (concat (aggr_units c ns)))
        (length pre)
        size
      ≡ some (ok, located c ns behind)
unfolding located
find_nalus-units c pre behind ns zero size small few fits = absurd (omega arith)
find_nalus-units c pre behind [] (suc fuel) size small few fits =
    find_nalus-end fuel (length pre) size (length pre + length (concat (aggr_units c [])))
      (pre ++ (concat (aggr_units c []) ++ behind)) (omega (arith, empty_units c))
find_nalus-units c pre behind (n ∷ ns) (suc fuel) size small few fits =
    let units : List ℕ = concat (aggr_units c ns) in
    let tail : List ℕ = units ++ behind in
    let next : List ℕ = pre ++ (put16 (length n) ++ n) in
    let total : ℕ = length pre + length (concat (aggr_units c (n ∷ ns))) in
    let payload : List ℕ = pre ++ (concat (aggr_units c (n ∷ ns)) ++ behind) in
    let shape : payload ≡ pre ++ (put16 (length n) ++ (n ++ tail)) =
      ap (λ (u : List ℕ). pre ++ (u ++ behind)) (aggr_units-cons c n ns small.0)
      ∙ ap (λ (u : List ℕ). pre ++ (put16 (length n) ++ u)) (append_assoc n units behind) in
    let regroup : payload ≡ next ++ tail =
      shape ∙ sym (append_assoc pre (put16 (length n) ++ n) tail) in
    let len =
      ap length (aggr_units-cons c n ns small.0) ∙ length-append (put16 (length n)) (n ++ units) in
    let len' = length-append n units in
    let len_next = length-append pre (put16 (length n) ++ n) in
    let ahead : length pre + (length n + 2) ≡ length next = omega arith in
    let same_end : total ≡ length next + length units = omega arith in
    let read : read16 payload (length pre) ≡ some (length n) =
      (λ i. read16 (shape i) (at_start pre i))
      ∙ read16-skip pre (put16 (length n) ++ (n ++ tail)) 0
      ∙ read16-put16 (length n) (n ++ tail) (omega arith) in
    let more : find_nalus fuel payload total (length pre + (length n + 2)) (size + length n)
        ≡ some (ok, located c ns behind) =
      (λ i. find_nalus fuel (regroup i) (same_end i) (ahead i) (size + length n))
      ∙ find_nalus-units c next behind ns fuel (size + length n) small.1 (omega arith)
          (omega arith) in
    let from : drop (length pre + 2) payload ≡ n ++ tail =
      ap (drop (length pre + 2)) shape ∙ drop-skip pre (put16 (length n) ++ (n ++ tail)) 2 in
    find_nalus-step fuel (length n) (length pre) size total payload ok (located c ns behind)
      (omega arith) read (omega arith) more
    ∙ ap (λ (u : List ℕ). some (ok, (length n, u) ∷ located c ns behind)) from

queue_nalus-located :
    (c : Codec) (prepend : Bool) (header : RtpHeader) (ns : List (List ℕ)) (behind : List ℕ)
    → queue_nalus c prepend header (located c ns behind) ≡ some (nalu_frames c prepend header ns)
unfolding queue_nalus located
queue_nalus-located c prepend header [] behind = refl
queue_nalus-located c prepend header (n ∷ ns) behind =
    rw
      (
        take_exact-append n (concat (aggr_units c ns) ++ behind),
        queue_nalus-located c prepend header ns behind,
      )
      refl

length-aggr_units :
    (c : Codec) (ns : List (List ℕ)) → AllSmall ns → length ns ≤ length (concat (aggr_units c ns))
length-aggr_units c [] small = omega arith
length-aggr_units c (n ∷ ns) small = omega (
  arith,
  ap length (aggr_units-cons c n ns small.0),
  length-append n (concat (aggr_units c ns)),
  length-aggr_units c ns small.1,
)

-- The payload of an aggregation packet, any payload header of the codec's size followed by NAL units
-- with their lengths as the sender writes them, each below 65535 octets, and by octets that `payload_len`
-- does not count, such as the tag of SRTP, is taken apart into one frame for each NAL unit, in order,
-- each behind a start code unless the flags say that there is none.
pub handle_aggregation_packet-aggr_units :
    (c : Codec) (rce_flags : ℕ) (f : RtpFrame) (pre : List ℕ) (ns : List (List ℕ)) (behind : List ℕ)
    → AllSmall ns
    → length pre ≡ get_payload_header_size c
    → f.payload ≡ pre ++ (concat (aggr_units c ns) ++ behind)
    → f.payload_len ≡ length pre + length (concat (aggr_units c ns))
    → handle_aggregation_packet c rce_flags f
      ≡ some (
        multiple_pkts_ready,
        nalu_frames c (not (flag_set rce_flags rce_no_h26x_prepend_sc)) f.header ns,
      )
unfolding handle_aggregation_packet
handle_aggregation_packet-aggr_units c rce_flags f pre ns behind small size whole counted =
    let found : find_nalus (suc f.payload_len) f.payload f.payload_len (get_payload_header_size c) 0
        ≡ some (ok, located c ns behind) =
      (λ i. find_nalus (suc f.payload_len) (whole i) (counted i) (sym size i) 0)
      ∙ find_nalus-units c pre behind ns (suc f.payload_len) 0 small
          (omega (arith, length-aggr_units c ns small)) (omega arith) in
    rw
      (
        found,
        queue_nalus-located c (not (flag_set rce_flags rce_no_h26x_prepend_sc)) f.header ns behind,
      )
      refl

-- An aggregation packet whose first NAL unit claims more octets than the payload has behind its length,
-- but no more than `payload_len`, is not refused, if `payload_len` counts a part of that NAL unit's
-- length at least and no more than there is: the handler reads behind the payload.
pub handle_aggregation_packet_overrun :
    (c : Codec) (rce_flags n : ℕ) (f : RtpFrame) (pre nalu : List ℕ)
    → length pre ≡ get_payload_header_size c
    → n < 65536
    → length nalu < n
    → n ≤ f.payload_len
    → length pre < f.payload_len
    → f.payload_len ≤ length f.payload
    → f.payload ≡ pre ++ (put16 n ++ nalu)
    → handle_aggregation_packet c rce_flags f ≡ none
unfolding handle_aggregation_packet
handle_aggregation_packet_overrun c rce_flags n f pre nalu size u16 short within some_length counted
      whole =
    let payload : List ℕ = pre ++ (put16 n ++ nalu) in
    let len = ap length whole ∙ length-append pre (put16 n ++ nalu) in
    let read : read16 payload (length pre) ≡ some n =
      ap (read16 payload) (at_start pre)
      ∙ read16-skip pre (put16 n ++ nalu) 0
      ∙ read16-put16 n nalu u16 in
    let found : find_nalus (suc f.payload_len) f.payload f.payload_len (get_payload_header_size c) 0
        ≡ some (ok, (n, nalu) ∷ []) =
      (λ i. find_nalus (suc f.payload_len) (whole i) f.payload_len (sym size i) 0)
      ∙ find_nalus-step f.payload_len n (length pre) 0 f.payload_len payload ok [] (omega arith)
          read (omega arith)
          (find_nalus-past f.payload_len (length pre + (n + 2)) (0 + n) f.payload_len payload
            (omega arith) (omega arith))
      ∙ ap (λ (u : List ℕ). some (ok, (n, u) ∷ [])) (drop-skip pre (put16 n ++ nalu) 2) in
    rw
      (
        found,
        queue_nalus-short c (not (flag_set rce_flags rce_no_h26x_prepend_sc)) f.header n nalu short,
      )
      refl
