-- ===== src/H26x/Lost.antt =====
-- src/formats/h26x.cc: push_media_frame() when only one NAL unit stands before the first large one.
use uvg_rtp.Prelude.{
  if◌then◌else◌, length, take, drop, length-drop, ◌>>=◌, take_exact, take_exact_total, flag_set, ℕ,
  ◌+◌, ◌^◌, ◌≤◌, ◌<◌, ◌≡◌, refl, ap, ◌∙◌, Bool, true, false, Option, none, some, List, [], ◌∷◌,
  ◌++◌, arith,
}
use uvg_rtp.Util.{RtpError, invalid_value, rtp_no_h26x_scl, rtp_h26x_do_not_aggr}
use uvg_rtp.Rtp.Context.{Env}
use uvg_rtp.FrameQueue.{Transaction, FrameQueue, init_transaction, flush_queue}
use uvg_rtp.Media.{Pushed}
use uvg_rtp.H26x.Headers.{Codec}
use uvg_rtp.H26x.Aggregation.{finalize_aggregation_pkt}
use uvg_rtp.H26x.ZeroBytes.{AllBytes}
use uvg_rtp.H26x.Push.{
  NalInfo, scl, add_leading, push_nal, push_nals, chosen, push_aggregated, push_units, is_atlas,
  find_units, push_found, push_media_frame,
}
use mathlib.Core.Path.{subst}
use uvg_rtp.H26x.Tiles.{Tiles, scl-Tiles}

-- The frame queue of the frame, before anything is queued.
abbrev pub started : Env → List ℕ → FrameQueue → FrameQueue
started e bytes q = (init_transaction e bytes false q).1

if_false {ℓ} : {A : Type ℓ} (b : Bool) (x y : A) → b ≡ false → (if b then x else y) ≡ y
if_false true x y h = cc
if_false false x y h = refl

if_true {ℓ} : {A : Type ℓ} (b : Bool) (x y : A) → b ≡ true → (if b then x else y) ≡ x
if_true true x y h = refl
if_true false x y h = cc

add_leading_lone :
    (data_ : List ℕ) (lone large : NalInfo) (nals : List NalInfo)
    → lone.aggregate ≡ true
    → large.aggregate ≡ false
    → lone.size ≤ length (drop lone.offset data_)
    → add_leading data_ (lone ∷ large ∷ nals)
      ≡ some (
        take lone.size (drop lone.offset data_) ∷ [],
        record lone { was_aggregated = true } ∷ large ∷ nals,
      )
unfolding add_leading
add_leading_lone data_ lone large nals small big fits =
    if_true lone.aggregate _ (some ([], lone ∷ large ∷ nals)) small ∙ (λ i. (do
      bytes ← take_exact_total lone.size (drop lone.offset data_) fits i
      (kept, marked) ←
          if_false large.aggregate
            (do
              bytes ← take_exact large.size (drop large.offset data_)
              (kept, marked) ← add_leading data_ nals
              some (bytes ∷ kept, record large { was_aggregated = true } ∷ marked))
            (some ([], large ∷ nals)) big i
      some (bytes ∷ kept, record lone { was_aggregated = true } ∷ marked)))

nothing_before :
    (pushed : Pushed)
    → (do (ret, q, later) ← pushed; some (ret, q, ◌++◌ {A = List ℕ} [] later)) ≡ pushed
nothing_before none = refl
nothing_before (some r) = refl

flush_queue_empty :
    (paced : Bool) (sendto : List (List ℕ) → Bool) (q : FrameQueue) (t : Transaction)
    → q.active ≡ some t
    → t.packets ≡ []
    → flush_queue paced sendto q ≡ some (invalid_value, record q { active = none }, [])
unfolding flush_queue
flush_queue_empty paced sendto q t active empty = ground arith

-- One unit makes no packet, and nothing is flushed.
push_aggregated_lone :
    (c : Codec) (paced : Bool) (sendto : List (List ℕ) → Bool)
    (push : NalInfo → FrameQueue → Option (Bool × RtpError × FrameQueue × List (List ℕ)))
    (bytes : List ℕ) (lone : NalInfo) (nals : List NalInfo) (q : FrameQueue) (t : Transaction)
    → q.active ≡ some t
    → t.packets ≡ []
    → push_aggregated c paced sendto push
        (bytes ∷ [])
        (record lone { was_aggregated = true } ∷ nals)
        q
      ≡ push_nals push (chosen false true) invalid_value nals (record q { active = none })
unfolding push_aggregated finalize_aggregation_pkt push_nals
push_aggregated_lone c paced sendto push bytes lone nals q t active empty =
    rw (flush_queue_empty paced sendto q t active empty) (nothing_before _)

push_units_lone :
    (c : Codec) (e : Env) (paced : Bool) (sendto : List (List ℕ) → Bool) (payload_size : ℕ)
    (data_ : List ℕ) (lone large : NalInfo) (nals : List NalInfo) (q : FrameQueue) (t : Transaction)
    → lone.aggregate ≡ true
    → large.aggregate ≡ false
    → lone.size ≤ length (drop lone.offset data_)
    → q.active ≡ some t
    → t.packets ≡ []
    → push_units c e paced sendto payload_size data_ true false (lone ∷ large ∷ nals) q
      ≡ push_nals
          (push_nal c e paced sendto payload_size data_)
          (chosen false true)
          invalid_value
          (large ∷ nals)
          (record q { active = none })
unfolding push_units
push_units_lone c e paced sendto payload_size data_ lone large nals q t small big fits active
      empty =
    rw (add_leading_lone data_ lone large nals small big fits) (
      push_aggregated_lone c paced sendto (push_nal c e paced sendto payload_size data_) _ lone
        (large ∷ nals) q t active empty)

head_fits :
    (data_ : List ℕ) (offset size : ℕ)
    → offset + size ≤ length data_
    → size ≤ length (drop offset data_)
head_fits data_ offset size h = omega (arith, length-drop offset data_)

units_found :
    (c : Codec) (data_ : List ℕ) (rtp_flags : ℕ) (q : FrameQueue)
    → flag_set rtp_flags rtp_no_h26x_scl ≡ false
    → is_atlas q.rtp.fmt ≡ false
    → find_units c data_ rtp_flags q ≡ scl c data_ q.rtp.payload_size
unfolding find_units
units_found c data_ rtp_flags q scl_on format = rw (scl_on, format) refl

-- If the frame begins with one NAL unit that is to be aggregated, before one that is too large, and
-- others make aggregation possible, then the first NAL unit is not sent: the rest is sent as if it had
-- not been there.
pub push_media_frame_lone :
    (c : Codec) (e : Env) (paced : Bool) (sendto : List (List ℕ) → Bool) (b : ℕ) (bytes : List ℕ)
    (rtp_flags : ℕ) (q : FrameQueue) (lone large : NalInfo) (nals : List NalInfo)
    → AllBytes (b ∷ bytes)
    → length (b ∷ bytes) < 2 ^ 64
    → flag_set rtp_flags rtp_no_h26x_scl ≡ false
    → flag_set rtp_flags rtp_h26x_do_not_aggr ≡ false
    → is_atlas (started e (b ∷ bytes) q).rtp.fmt ≡ false
    → scl c (b ∷ bytes) (started e (b ∷ bytes) q).rtp.payload_size ≡ (lone ∷ large ∷ nals, true)
    → lone.aggregate ≡ true
    → large.aggregate ≡ false
    → push_media_frame c e paced sendto (b ∷ bytes) rtp_flags q
      ≡ push_nals
          (push_nal c e paced sendto (started e (b ∷ bytes) q).rtp.payload_size (b ∷ bytes))
          (chosen false true)
          invalid_value
          (large ∷ nals)
          (record (started e (b ∷ bytes) q) { active = none })
unfolding push_media_frame push_found init_transaction
push_media_frame_lone c e paced sendto b bytes rtp_flags q lone large nals all_bytes short scl_on
      aggr_on format found small big =
    let tiles =
      subst (λ (l : List NalInfo). Tiles (b ∷ bytes) l)
        (ap (λ (r : List NalInfo × Bool). r.0) found)
        (scl-Tiles c (b ∷ bytes) (started e (b ∷ bytes) q).rtp.payload_size all_bytes short) in
    ap (push_found c e paced sendto (b ∷ bytes) rtp_flags (started e (b ∷ bytes) q))
      (units_found c (b ∷ bytes) rtp_flags (started e (b ∷ bytes) q) scl_on format ∙ found)
    ∙ ap
        (λ (no : Bool).
          push_units c e paced sendto (started e (b ∷ bytes) q).rtp.payload_size (b ∷ bytes) true no
            (lone ∷ large ∷ nals) (started e (b ∷ bytes) q))
        aggr_on
    ∙ push_units_lone c e paced sendto (started e (b ∷ bytes) q).rtp.payload_size (b ∷ bytes) lone
        large nals (started e (b ∷ bytes) q) _ small big
        (head_fits (b ∷ bytes) lone.offset lone.size tiles.4) refl refl
