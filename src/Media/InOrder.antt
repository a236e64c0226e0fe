-- ===== src/Media/InOrder.antt =====
-- Fragments of one frame that arrive in the order they were sent.
use uvg_rtp.Prelude.{
  ℕ, suc, ◌+◌, ◌%◌, ◌≤◌, ◌<◌, ◌≡◌, refl, sym, ap, ◌∙◌, arith, true, false, none, List, [], ◌∷◌,
  ◌++◌, append-nil, append_assoc, length, if◌then◌else◌, ◌==◌, flag_set, lookup, insert,
  insert_sorted, insert_sorted-append, erase, KeysBelow, lookup-insert_self, insert-insert,
  erase-insert,
}
use native.Mathlib.Nat.{add-zero, add-suc, add_assoc}
use uvg_rtp.Util.{RtpError, ok, pkt_ready, rce_fragment_generic}
use uvg_rtp.Frame.{RtpFrame, FramePtr, null, live, alloc_rtp_frame}
use uvg_rtp.Media.Receive.{
  MediaInfo, Frames, invalid_seq, join_fragments, used_payload, add_fragment, is_complete,
  joined_frame, first_fragment, next_fragment, packet_handler,
}

-- The handler on one frame after another: each result, and the map at the end.
unfoldable pub feed : ℕ → List RtpFrame → Frames → List (RtpError × FramePtr) × Frames
feed rce_flags [] frames = ([], frames)
feed rce_flags (f ∷ fs) frames =
    let (ret, out, frames') = packet_handler rce_flags f frames in
    let (results, last) = feed rce_flags fs frames' in ((ret, out) ∷ results, last)

-- Frame number i of a frame that begins at sequence number s.
pub record IsFragment (ts s i marker : ℕ) (f : RtpFrame) : Type 0 where
  pub same_ts : f.header.timestamp ≡ ts
  pub in_sequence : f.header.seq ≡ (s + i) % 65536
  pub marked : f.header.marker ≡ marker
  pub counted : f.payload_len ≡ length (used_payload f)

-- The marker bit is set in the last fragment only.
abbrev pub Fragments : ℕ → ℕ → ℕ → List RtpFrame → Type 0
Fragments ts s i [] = ⊥
Fragments ts s i (f ∷ []) = IsFragment ts s i 1 f
Fragments ts s i (f ∷ g ∷ fs) = IsFragment ts s i 0 f × Fragments ts s (suc i) (g ∷ fs)

abbrev pub payloads : List RtpFrame → List ℕ
payloads [] = []
payloads (f ∷ fs) = used_payload f ++ payloads fs

abbrev pub total_len : List RtpFrame → ℕ
total_len [] = 0
total_len (f ∷ fs) = f.payload_len + total_len fs

-- Nothing is returned until the last fragment, with which the whole frame is.
abbrev pub in_order_results : ℕ → List ℕ → List RtpFrame → List (RtpError × FramePtr)
in_order_results len payload [] = []
in_order_results len payload (f ∷ []) =
    (
      pkt_ready,
      live (record alloc_rtp_frame { header = f.header; payload_len = len; payload = payload }),
    )
    ∷ []
in_order_results len payload (f ∷ g ∷ fs) = (ok, null) ∷ in_order_results len payload (g ∷ fs)

-- What the entry holds after i fragments.
record Gathered (s i : ℕ) (info : MediaInfo) : Type 0 where
  starts : info.s_seq ≡ s
  open_end : info.e_seq ≡ invalid_seq
  gathered : info.npkts ≡ i
  keys : KeysBelow (s + i) info.fragments

-- The entry with fragment number i at its end.
abbrev grown : ℕ → ℕ → ℕ → RtpFrame → MediaInfo → MediaInfo
grown s i e f info = record {
  s_seq = s;
  e_seq = e;
  npkts = suc i;
  size = info.size + f.payload_len;
  fragments = info.fragments ++ ((s + i, f) ∷ []);
}

add_fragment_in_order :
    (ts s i m : ℕ) (f : RtpFrame) (info : MediaInfo)
    → IsFragment ts s i m f
    → Gathered s i info
    → s < 65536
    → i < 65535
    → 1 ≤ i
    → info.size + f.payload_len < 18446744073709551616
    → add_fragment f info ≡ grown s i (if m == 0 then invalid_seq else f.header.seq) f info
unfolding add_fragment
add_fragment_in_order ts s i m f info x g sb ib pos fits =
    ground (arith, insert_sorted-append (s + i) f info.fragments g.keys)

KeysBelow-append :
    (b : ℕ) (f : RtpFrame) (m : List (ℕ × RtpFrame))
    → KeysBelow b m
    → KeysBelow (suc b) (m ++ ((b, f) ∷ []))
KeysBelow-append b f [] h = omega arith
KeysBelow-append b f ((k, g) ∷ m) h = (omega arith, KeysBelow-append b f m h.1)

join_fragments-append :
    (m : List (ℕ × RtpFrame)) (k : ℕ) (f : RtpFrame)
    → join_fragments (m ++ ((k, f) ∷ [])) ≡ join_fragments m ++ (used_payload f)
unfolding join_fragments
join_fragments-append [] k f = append-nil (used_payload f)
join_fragments-append ((j, g) ∷ m) k f =
    rw (join_fragments-append m k f)
      (sym (append_assoc (used_payload g) (join_fragments m) (used_payload f)))

is_complete_middle :
    (s i : ℕ) (f : RtpFrame) (info : MediaInfo) → is_complete (grown s i invalid_seq f info) ≡ false
unfolding is_complete
is_complete_middle s i f info = refl

is_complete_last :
    (s i : ℕ) (f : RtpFrame) (info : MediaInfo)
    → s < 65536
    → i < 65535
    → 1 ≤ i
    → f.header.seq ≡ (s + i) % 65536
    → is_complete (grown s i f.header.seq f info) ≡ true
unfolding is_complete
is_complete_last s i f info sb ib pos e = ground arith

next_fragment_middle :
    (ts s i : ℕ) (f : RtpFrame) (info : MediaInfo) (frames : Frames)
    → IsFragment ts s i 0 f
    → Gathered s i info
    → s < 65536
    → i < 65535
    → 1 ≤ i
    → info.size + f.payload_len < 18446744073709551616
    → next_fragment f info frames ≡ (ok, null, insert ts (grown s i invalid_seq f info) frames)
unfolding next_fragment
next_fragment_middle ts s i f info frames x g sb ib pos fits =
    ground (
      arith,
      add_fragment_in_order ts s i 0 f info x g sb ib pos fits,
      is_complete_middle s i f info,
    )

next_fragment_last :
    (ts s i : ℕ) (f : RtpFrame) (info : MediaInfo) (frames : Frames)
    → IsFragment ts s i 1 f
    → Gathered s i info
    → s < 65536
    → i < 65535
    → 1 ≤ i
    → info.size + f.payload_len < 18446744073709551616
    → next_fragment f info frames
      ≡ (pkt_ready, live (joined_frame f (grown s i f.header.seq f info)), erase ts frames)
unfolding next_fragment
next_fragment_last ts s i f info frames x g sb ib pos fits = ground (
  arith,
  add_fragment_in_order ts s i 1 f info x g sb ib pos fits,
  is_complete_last s i f info sb ib pos x.in_sequence,
)

handler_known :
    (ts flags : ℕ) (f : RtpFrame) (info : MediaInfo) (frames : Frames)
    → flag_set flags rce_fragment_generic ≡ true
    → f.header.timestamp ≡ ts
    → packet_handler flags f (insert ts info frames) ≡ next_fragment f info (insert ts info frames)
unfolding packet_handler
handler_known ts flags f info frames on e = ground (arith, lookup-insert_self ts info frames)

feed-cons :
    (flags : ℕ) (f : RtpFrame) (fs : List RtpFrame) (m m' last : Frames) (ret : RtpError)
    (out : FramePtr) (results : List (RtpError × FramePtr))
    → packet_handler flags f m ≡ (ret, out, m')
    → feed flags fs m' ≡ (results, last)
    → feed flags (f ∷ fs) m ≡ ((ret, out) ∷ results, last)
unfolding feed
feed-cons flags f fs m m' last ret out results e h = rw (e, h)

feed-nil : (flags : ℕ) (m : Frames) → feed flags [] m ≡ ([], m)
unfolding feed
feed-nil flags m = refl

joined_frame-grown :
    (s i : ℕ) (f : RtpFrame) (info : MediaInfo)
    → joined_frame f (grown s i f.header.seq f info) ≡ record alloc_rtp_frame {
      header = f.header;
      payload_len = info.size + f.payload_len;
      payload = join_fragments info.fragments ++ (used_payload f);
    }
unfolding joined_frame
joined_frame-grown s i f info = rw (join_fragments-append info.fragments (s + i) f)

grown-Gathered :
    (s i : ℕ) (f : RtpFrame) (info : MediaInfo)
    → Gathered s i info
    → Gathered s (suc i) (grown s i invalid_seq f info)
grown-Gathered s i f info g = record {
  starts = refl;
  open_end = refl;
  gathered = refl;
  keys = rw (add-suc s i) (KeysBelow-append (s + i) f info.fragments g.keys);
}

same_results :
    {n n' : ℕ} {p p' : List ℕ} (fs : List RtpFrame) (frames : Frames)
    → n ≡ n'
    → p ≡ p'
    → ◌≡◌ {A = List (RtpError × FramePtr) × Frames}
        ((ok, null) ∷ in_order_results n p fs, frames)
        ((ok, null) ∷ in_order_results n' p' fs, frames)
same_results fs frames e d = λ i. ((ok, null) ∷ in_order_results (e i) (d i) fs, frames)

feed_rest :
    (ts s i flags : ℕ) (fs : List RtpFrame) (info : MediaInfo) (frames : Frames)
    → flag_set flags rce_fragment_generic ≡ true
    → Fragments ts s i fs
    → Gathered s i info
    → s < 65536
    → 1 ≤ i
    → i + length fs ≤ 65535
    → info.size + total_len fs < 18446744073709551616
    → lookup ts frames ≡ none
    → feed flags fs (insert ts info frames) ≡ (
      in_order_results (info.size + total_len fs) (join_fragments info.fragments ++ payloads fs) fs,
      frames,
    )
feed_rest ts s i flags [] info frames on x g sb pos ib fits absent = absurd x
feed_rest ts s i flags (f ∷ []) info frames on x g sb pos ib fits absent =
    let step =
      handler_known ts flags f info frames on x.same_ts
      ∙ next_fragment_last ts s i f info (insert ts info frames) x g sb (omega arith) pos
          (omega arith) in
    feed-cons flags f [] _ _ _ _ _ [] step (feed-nil flags _)
    ∙ rw
        (
          joined_frame-grown s i f info,
          erase-insert ts info frames absent,
          append-nil (used_payload f),
          add-zero f.payload_len,
        )
        refl
feed_rest ts s i flags (f ∷ h ∷ fs) info frames on (x, xs) g sb pos ib fits absent =
    let step =
      handler_known ts flags f info frames on x.same_ts
      ∙ next_fragment_middle ts s i f info (insert ts info frames) x g sb (omega arith) pos
          (omega arith)
      ∙ ap (λ (m : Frames). (ok, null, m))
          (insert-insert ts info (grown s i invalid_seq f info) frames) in
    let rest =
      feed_rest ts s (suc i) flags (h ∷ fs) (grown s i invalid_seq f info) frames on xs
        (grown-Gathered s i f info g) sb (omega arith) (omega arith) (omega arith) absent in
    feed-cons flags f (h ∷ fs) _ _ _ _ _ _ step rest
    ∙ same_results (h ∷ fs) frames (add_assoc info.size f.payload_len (total_len (h ∷ fs))) (
        ap (λ (p : List ℕ). p ++ payloads (h ∷ fs)) (join_fragments-append info.fragments (s + i) f)
        ∙ append_assoc (join_fragments info.fragments) (used_payload f) (payloads (h ∷ fs)))

abbrev started : RtpFrame → MediaInfo
started f = record {
  s_seq = f.header.seq;
  e_seq = invalid_seq;
  npkts = 1;
  size = f.payload_len;
  fragments = insert_sorted f.header.seq f [];
}

handler_first :
    (ts s flags : ℕ) (f : RtpFrame) (frames : Frames)
    → flag_set flags rce_fragment_generic ≡ true
    → IsFragment ts s 0 0 f
    → lookup ts frames ≡ none
    → packet_handler flags f frames ≡ (ok, null, insert ts (started f) frames)
unfolding packet_handler first_fragment
handler_first ts s flags f frames on x absent = ground arith

started-Gathered :
    (ts s : ℕ) (f : RtpFrame) → IsFragment ts s 0 0 f → s < 65536 → Gathered s 1 (started f)
unfolding insert_sorted
started-Gathered ts s f x sb = record {
  starts = x.in_sequence ∙ omega arith;
  open_end = refl;
  gathered = refl;
  keys = (omega (arith, x.in_sequence), tt);
}

join-started : (f : RtpFrame) → join_fragments (started f).fragments ≡ (used_payload f)
unfolding join_fragments insert_sorted
join-started f = append-nil (used_payload f)

-- With RCE_FRAGMENT_GENERIC, two or more fragments of one new timestamp, 65535 at most, that arrive in
-- order are kept until the last, wherever in the 16-bit range their sequence numbers begin and wrap:
-- the last one returns a frame of all payloads, as far as their lengths count them, joined in order,
-- with its size, and the map is as before.
pub feed_in_order :
    (ts s flags : ℕ) (f h : RtpFrame) (fs : List RtpFrame) (frames : Frames)
    → flag_set flags rce_fragment_generic ≡ true
    → Fragments ts s 0 (f ∷ h ∷ fs)
    → s < 65536
    → length (f ∷ h ∷ fs) ≤ 65535
    → total_len (f ∷ h ∷ fs) < 18446744073709551616
    → lookup ts frames ≡ none
    → feed flags (f ∷ h ∷ fs) frames
      ≡ (in_order_results (total_len (f ∷ h ∷ fs)) (payloads (f ∷ h ∷ fs)) (f ∷ h ∷ fs), frames)
feed_in_order ts s flags f h fs frames on (x, xs) sb few fits absent =
    feed-cons flags f (h ∷ fs) _ _ _ _ _ _ (handler_first ts s flags f frames on x absent) (
      feed_rest ts s 1 flags (h ∷ fs) (started f) frames on xs (started-Gathered ts s f x sb) sb
        (omega arith) (omega arith) (omega arith) absent)
    ∙ same_results (h ∷ fs) frames refl
        (ap (λ (p : List ℕ). p ++ payloads (h ∷ fs)) (join-started f))
