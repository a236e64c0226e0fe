-- ===== src/H26x/Push.antt =====
-- src/formats/h26x.cc: scl(), which lists the NAL units of a frame, and push_media_frame(), which sends
-- them. Sizes are 64-bit. A copy behind the data is `none`. One reading of the clock serves a whole
-- frame: the calls of init_transaction() after the first use its timestamp.
use uvg_rtp.Prelude.{
  leb, if◌then◌else◌, length, drop, ◌>>=◌, take_exact, sub64, flag_set, ℕ, zero, suc, ◌+◌, ◌%◌, ◌^◌,
  Bool, true, false, not, ◌&&◌, ◌||◌, Option, none, some, List, [], ◌∷◌, ◌++◌,
}
use uvg_rtp.Util.{RtpError, ok, invalid_value, RtpFormat, rtp_no_h26x_scl, rtp_h26x_do_not_aggr}
use uvg_rtp.Rtp.Context.{Env}
use uvg_rtp.FrameQueue.{FrameQueue, init_transaction, deinit_transaction, flush_queue}
use uvg_rtp.Media.{Pushed}
use uvg_rtp.H26x.Headers.{Codec, get_payload_header_size}
use uvg_rtp.H26x.Fragments.{single_nal_unit, fu_division}
use uvg_rtp.H26x.Aggregation.{finalize_aggregation_pkt}
use uvg_rtp.H26x.StartCode.{Found, find_h26x_start_code}

-- struct nal_info.
pub record NalInfo : Type 0 where
  pub offset : ℕ
  pub prefix_len : ℕ
  pub size : ℕ
  pub aggregate : Bool
  pub was_aggregated : Bool

-- The first loop of scl(). Each start code lies behind the one before, so the length of the data is
-- fuel enough.
unfoldable pub find_nals : Codec → ℕ → List ℕ → Found → List NalInfo
find_nals c fuel data_ none = []
find_nals c zero data_ (some (offset, start_len)) = []
find_nals c (suc fuel) data_ (some (offset, start_len)) =
    record {
      offset = offset;
      prefix_len = start_len;
      size = 0;
      aggregate = false;
      was_aggregated = false;
    }
    ∷ find_nals c fuel data_ (find_h26x_start_code c data_ offset)

-- Up to the next start code, or to the end.
unfoldable pub nal_size : ℕ → NalInfo → List NalInfo → ℕ
nal_size data_len nal [] = sub64 data_len nal.offset
nal_size data_len nal (next ∷ rest) = sub64 (sub64 next.offset nal.offset) next.prefix_len

-- The second loop: the sizes, which NAL units fit one packet with those before, and their number.
unfoldable pub size_nals : ℕ → ℕ → ℕ → ℕ → List NalInfo → List NalInfo × ℕ
unfolding nal_size
size_nals data_len packet_size aggregate_size aggregatable [] = ([], aggregatable)
size_nals data_len packet_size aggregate_size aggregatable (nal ∷ nals) =
    let size = nal_size data_len nal nals in
    let sum = (aggregate_size + size + 2) % 2 ^ 64 in
    let fits = leb sum packet_size in
    let (rest, count) =
      size_nals data_len packet_size (if fits then sum else aggregate_size)
        (if fits then aggregatable + 1 else aggregatable) nals in
    (record nal { size = size; aggregate = fits } ∷ rest, count)

-- The NAL units, and `can_be_aggregated`.
unfoldable pub scl : Codec → List ℕ → ℕ → List NalInfo × Bool
unfolding find_nals size_nals
scl c data_ packet_size =
    let found = find_nals c (length data_) data_ (find_h26x_start_code c data_ 0) in
    let (nals, count) =
      size_nals (length data_) (sub64 packet_size (get_payload_header_size c)) 0 0 found in
    (nals, leb 2 count)

-- The whole frame as one NAL unit.
unfoldable pub whole_frame : List ℕ → NalInfo
whole_frame data_ = record {
  offset = 0;
  prefix_len = 0;
  size = length data_;
  aggregate = false;
  was_aggregated = false;
}

-- add_aggregate_packet() for the NAL units up to the first that is not to be aggregated: what is kept
-- for the packet, and the units with their marks.
unfoldable pub add_leading : List ℕ → List NalInfo → Option (List (List ℕ) × List NalInfo)
add_leading data_ [] = some ([], [])
add_leading data_ (nal ∷ nals) =
    let more = (do
      bytes ← take_exact nal.size (drop nal.offset data_)
      (kept, marked) ← add_leading data_ nals
      some (bytes ∷ kept, record nal { was_aggregated = true } ∷ marked)) in
    if nal.aggregate then more else some ([], nal ∷ nals)

-- A pointer behind the last octet is not null.
unfoldable pub init_at : Env → List ℕ → ℕ → FrameQueue → RtpError × FrameQueue
init_at e data_ offset q = elim (drop offset data_) [
  | [] ↦ init_transaction e data_ true q
  | b ∷ bytes ↦ init_transaction e (b ∷ bytes) true q
]

-- One round of the second loop: whether the loop goes on, what the call has returned, and what was sent.
unfoldable pub push_nal :
    Codec
    → Env
    → Bool
    → (List (List ℕ) → Bool)
    → ℕ
    → List ℕ
    → NalInfo
    → FrameQueue
    → Option (Bool × RtpError × FrameQueue × List (List ℕ))
unfolding init_at
push_nal c e paced sendto payload_size data_ nal q = do
  let (started, q') = init_at e data_ nal.offset q
  elim started [
    | ok ↦ (do
      bytes ← take_exact nal.size (drop nal.offset data_)
      (ret, q'') ←
          (if leb nal.size payload_size
            then single_nal_unit bytes q'
            else fu_division c bytes payload_size q')
      elim ret [
        | ok ↦ (do
          (sent_ret, q''', sent) ← flush_queue paced sendto q''
          some (true, sent_ret, q''', sent))
        | other ↦ some (false, other, (deinit_transaction q'').1, [])
      ])
    | other ↦ some (false, other, q', [])
  ]

-- `ret` is what the call before has returned; a failure to send does not end the loop.
unfoldable pub push_nals :
    (NalInfo → FrameQueue → Option (Bool × RtpError × FrameQueue × List (List ℕ)))
    → (NalInfo → Bool)
    → RtpError
    → List NalInfo
    → FrameQueue
    → Pushed
push_nals push chosen ret [] q = some (ret, q, [])
push_nals push chosen ret (nal ∷ nals) q =
    let rest = λ (r : RtpError) (q' : FrameQueue). push_nals push chosen r nals q' in
    if chosen nal
    then (do
      (goes_on, r, q', sent) ← push nal q
      if goes_on
          then (do (r', q'', later) ← rest r q'; some (r', q'', sent ++ later))
          else some (r, q', sent))
    else rest ret q

abbrev pub chosen : Bool → Bool → NalInfo → Bool
chosen do_not_aggr should_aggregate nal =
    do_not_aggr || (not nal.was_aggregated || not should_aggregate)

-- With the NAL units that were kept for an aggregation packet, and the list of all: the packet, if there
-- is one, and then the units that are left.
unfoldable pub push_aggregated :
    Codec
    → Bool
    → (List (List ℕ) → Bool)
    → (NalInfo → FrameQueue → Option (Bool × RtpError × FrameQueue × List (List ℕ)))
    → List (List ℕ)
    → List NalInfo
    → FrameQueue
    → Pushed
push_aggregated c paced sendto push kept marked q = do
  (finalized, q') ← finalize_aggregation_pkt c kept q
  (ret, q'', sent) ← flush_queue paced sendto q'
  (ret', q''', later) ← push_nals push (chosen false true) ret marked q''
  some (ret', q''', sent ++ later)

-- Behind the search for NAL units.
unfoldable pub push_units :
    Codec
    → Env
    → Bool
    → (List (List ℕ) → Bool)
    → ℕ
    → List ℕ
    → Bool
    → Bool
    → List NalInfo
    → FrameQueue
    → Pushed
unfolding push_aggregated
push_units c e paced sendto payload_size data_ should_aggregate do_not_aggr nals q =
    let push = push_nal c e paced sendto payload_size data_ in
    if should_aggregate && not do_not_aggr
    then (do
      (kept, marked) ← add_leading data_ nals
      push_aggregated c paced sendto push kept marked q)
    else push_nals push (chosen do_not_aggr should_aggregate) ok nals q

unfoldable pub is_atlas : RtpFormat → Bool
is_atlas RtpFormat.atlas = true
is_atlas _ = false

-- The NAL units of the frame, and `should_aggregate`.
unfoldable pub find_units : Codec → List ℕ → ℕ → FrameQueue → List NalInfo × Bool
unfolding is_atlas whole_frame
find_units c data_ rtp_flags q =
    if flag_set rtp_flags rtp_no_h26x_scl || is_atlas q.rtp.fmt
    then (whole_frame data_ ∷ [], false)
    else scl c data_ q.rtp.payload_size

-- A frame without NAL units is refused; its transaction stays active.
unfoldable pub push_found :
    Codec
    → Env
    → Bool
    → (List (List ℕ) → Bool)
    → List ℕ
    → ℕ
    → FrameQueue
    → List NalInfo × Bool
    → Pushed
push_found c e paced sendto data_ rtp_flags q ([], should_aggregate) = some (invalid_value, q, [])
push_found c e paced sendto data_ rtp_flags q (nal ∷ nals, should_aggregate) =
    push_units c e paced sendto q.rtp.payload_size data_ should_aggregate
      (flag_set rtp_flags rtp_h26x_do_not_aggr) (nal ∷ nals) q

unfoldable pub push_media_frame :
    Codec → Env → Bool → (List (List ℕ) → Bool) → List ℕ → ℕ → FrameQueue → Pushed
push_media_frame c e paced sendto [] rtp_flags q = some (invalid_value, q, [])
push_media_frame c e paced sendto (b ∷ bytes) rtp_flags q =
    let (started, q') = init_transaction e (b ∷ bytes) false q in
    elim started [
      | ok ↦
          push_found c e paced sendto (b ∷ bytes) rtp_flags q'
            (find_units c (b ∷ bytes) rtp_flags q')
      | other ↦ some (other, q', [])
    ]
