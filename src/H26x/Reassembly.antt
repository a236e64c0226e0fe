-- ===== src/H26x/Reassembly.antt =====
-- src/formats/h26x.cc, packet_handler(): fragments are kept by sequence number, and joined to NAL units.
-- The clock, in milliseconds, is an argument; diff_now() is a uint64_t, so with a clock that has stepped
-- back it is huge.
use uvg_rtp.Prelude.{
  ltb, leb, ◌==◌, if◌then◌else◌, length, get_or, ◌>>=◌, sub64, lookup, insert, erase, ℕ, ◌+◌, ◌*◌,
  Bool, true, false, ◌||◌, Option, none, some, List, [], ◌∷◌, ◌++◌,
}
use uvg_rtp.Util.{RtpError, pkt_ready, not_found}
use uvg_rtp.Frame.{RtpFrame, FramePtr, null, live}

-- struct frag_info. `reconstructed` is only ever written, and stays false here.
pub record FragInfo : Type 0 where
  pub start : Bool
  pub end : Bool
  pub reconstructed : Bool

-- struct access_unit_info. The sets are lists in rising order.
pub record AccessUnit : Type 0 where
  pub sframe_time : ℕ
  pub total_size : ℕ
  pub received_packet_seqs : List ℕ
  pub incomplete_packet_seqs : List ℕ
  pub fragments_info : List (ℕ × FragInfo)

-- The members of class h26x for reception. `queued` is the queue of frame_getter().
pub record H26xState : Type 0 where
  pub queued : List RtpFrame
  pub access_units : List (ℕ × AccessUnit)
  pub seen_order : List (ℕ × ℕ)
  pub seen_packets : List ℕ
  pub fragments : List (ℕ × RtpFrame)
  pub dropped_ts : List (ℕ × ℕ)
  pub dropped_in_order : List ℕ
  pub discard_until_key_frame : Bool
  pub last_garbage_collection : ℕ

unfoldable pub frame_getter : H26xState → RtpError × FramePtr × H26xState
frame_getter s = elim s.queued [
  | [] ↦ (not_found, null, s)
  | f ∷ fs ↦ (pkt_ready, live f, record s { queued = fs })
]

unfoldable pub member : ℕ → List ℕ → Bool
member k [] = false
member k (x ∷ xs) = (k == x) || member k xs

unfoldable pub set_insert : ℕ → List ℕ → List ℕ
set_insert k [] = k ∷ []
set_insert k (x ∷ xs) =
    if ltb k x then k ∷ (x ∷ xs) else if k == x then x ∷ xs else x ∷ set_insert k xs

unfoldable pub set_erase : ℕ → List ℕ → List ℕ
set_erase k [] = []
set_erase k (x ∷ xs) = if k == x then set_erase k xs else x ∷ set_erase k xs

unfoldable pub set_erase_all : List ℕ → List ℕ → List ℕ
set_erase_all [] xs = xs
set_erase_all (k ∷ ks) xs = set_erase_all ks (set_erase k xs)

-- The packets that have left the window of 5000 ms are forgotten.
unfoldable pub expire_seen : ℕ → List (ℕ × ℕ) → List ℕ → List (ℕ × ℕ) × List ℕ
expire_seen now [] seen = ([], seen)
expire_seen now ((key, arrival) ∷ order) seen =
    if ltb 5000 (sub64 now arrival)
    then expire_seen now order (set_erase key seen)
    else ((key, arrival) ∷ order, seen)

unfoldable pub seen_key : ℕ → ℕ → ℕ
seen_key timestamp seq = timestamp * 65536 + seq

unfoldable pub is_duplicate_frame : ℕ → ℕ → ℕ → H26xState → Bool × H26xState
is_duplicate_frame now timestamp seq s =
    let kept = expire_seen now s.seen_order s.seen_packets in
    let key = seen_key timestamp seq in
    let s' : H26xState = record s { seen_order = kept.0; seen_packets = kept.1 } in
    if member key kept.1 then (true, s') else (
      false,
      record s' { seen_order = kept.0 ++ ((key, now) ∷ []); seen_packets = set_insert key kept.1 },
    )

unfoldable pub next_seq_num : ℕ → ℕ
next_seq_num seq = if seq == 65535 then 0 else seq + 1

unfoldable pub next_seq_from : ℕ → ℕ → List ℕ → ℕ
next_seq_from first current [] = first
next_seq_from first current (x ∷ xs) =
    if x == current then elim xs [ [] ↦ first | y ∷ ys ↦ y ] else next_seq_from first current xs

-- nextSeq(): the next one in the set, and the first after the last.
unfoldable pub next_seq : ℕ → List ℕ → ℕ
next_seq current fragments = next_seq_from (get_or fragments 0 0) current fragments

unfoldable pub free_fragment : ℕ → H26xState → H26xState
free_fragment seq s = record s { fragments = erase seq s.fragments }

unfoldable pub no_info : FragInfo
no_info = record { start = false; end = false; reconstructed = false }

unfoldable pub info_of : ℕ → AccessUnit → FragInfo
info_of seq au = elim (lookup seq au.fragments_info) [ none ↦ no_info | some i ↦ i ]

-- initialize_new_access_unit().
unfoldable pub new_access_unit : ℕ → AccessUnit
new_access_unit now = record {
  sframe_time = now;
  total_size = 0;
  received_packet_seqs = [];
  incomplete_packet_seqs = [];
  fragments_info = [];
}

-- The fragments of a unit are freed; a missing one is a null pointer that is read.
unfoldable pub free_fragments : List ℕ → H26xState → Option H26xState
free_fragments [] s = some s
free_fragments (seq ∷ seqs) s = do
  f ← lookup seq s.fragments
  free_fragments seqs (free_fragment seq s)

-- At most 600 dropped time stamps are remembered; the smallest goes first.
unfoldable pub limit_dropped : H26xState → H26xState
limit_dropped s =
    if ltb 600 (length s.dropped_ts)
    then (let oldest = get_or s.dropped_in_order 0 0 in
        record s {
          dropped_ts = erase oldest s.dropped_ts;
          dropped_in_order = set_erase oldest s.dropped_in_order;
        })
    else s

unfoldable pub drop_access_unit : ℕ → H26xState → Option H26xState
drop_access_unit ts s = elim (lookup ts s.access_units) [
  | none ↦ some s
  | some au ↦ (do
    s' ← free_fragments au.incomplete_packet_seqs s
    let s2 = limit_dropped (record s' {
      dropped_ts = insert ts au.sframe_time s'.dropped_ts;
      dropped_in_order = set_insert ts s'.dropped_in_order;
    })
    some (record s2 { access_units = erase ts s2.access_units; discard_until_key_frame = true }))
]

unfoldable pub drop_old_units : ℕ → ℕ → List (ℕ × AccessUnit) → H26xState → Option H26xState
drop_old_units now timeout [] s = some s
drop_old_units now timeout ((ts, au) ∷ units) s =
    if ltb timeout (sub64 now au.sframe_time)
    then (drop_access_unit ts s >>= drop_old_units now timeout units)
    else drop_old_units now timeout units s

unfoldable pub garbage_collect_lost_frames : ℕ → ℕ → H26xState → Option H26xState
garbage_collect_lost_frames now timeout s =
    if leb 100 (sub64 now s.last_garbage_collection)
    then (do
      s' ← drop_old_units now timeout s.access_units s
      some (record s' { last_garbage_collection = now }))
    else some s
