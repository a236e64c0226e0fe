-- ===== src/Media/Send.antt =====
-- A fragmented push sends the frame's pieces, in order, under consecutive sequence numbers.
use uvg_rtp.Prelude.{
  ℕ, zero, suc, ◌*◌, ◌≤◌, ◌<◌, ◌≡◌, ◌≢◌, refl, ap, ◌∙◌, arith, Bool, true, false, none, some, List,
  [], ◌∷◌, append-nil, length, length-take, length-drop, take, drop, take-append-drop, ltb, leb,
  if◌then◌else◌, Bool-cases, ltb→lt, lt→ltb, inl, inr, flag_set, ◌>>=◌,
}
use mathlib.Core.Path.{fun_ext}
use uvg_rtp.Util.{ok, rce_srtp_authenticate_rtp, rce_fragment_generic}
use uvg_rtp.Rtp.Context.{Rtp, Env, fill_header}
use uvg_rtp.FrameQueue.{
  Transaction, FrameQueue, Queued, max_msg_count, init_transaction, enqueue_message, flushed,
  flush_queue, concat,
}
use uvg_rtp.FrameQueue.Laws.{
  enqueue_all, enqueue_all_lem, AllNonempty, wire_from, headers_from, packets_from, advance_by,
  flushed-row,
}
use uvg_rtp.Media.{enqueue_fragments, push_started, push_media_frame}

-- The pieces of a frame: `size` octets each, and the rest.
unfoldable pub chunks : ℕ → ℕ → List ℕ → List (List ℕ)
chunks zero size bytes = bytes ∷ []
chunks (suc fuel) size bytes =
    let rest = chunks fuel size (drop size bytes) in
    if ltb size (length bytes) then take size bytes ∷ rest else bytes ∷ []

chunks_shape :
    (fuel size : ℕ) (bytes : List ℕ)
    → (d : List ℕ) × (ds : List (List ℕ)) × (chunks fuel size bytes ≡ d ∷ ds)
unfolding chunks
chunks_shape zero size bytes = (bytes, [], refl)
chunks_shape (suc fuel) size bytes = elim (Bool-cases (ltb size (length bytes))) [
  | inl e ↦ (take size bytes, chunks fuel size (drop size bytes), rw e)
  | inr e ↦ (bytes, [], rw e)
]

enqueue_all-cons :
    (c : List ℕ) (ds es : List (List ℕ)) (d : List ℕ) (q : FrameQueue)
    → es ≡ d ∷ ds
    → enqueue_all (c ∷ es) q ≡ enqueue_all (c ∷ d ∷ ds) q
enqueue_all-cons c ds es d q e = rw e

-- The loop queues the pieces.
enqueue_fragments-chunks :
    (fuel size : ℕ) (bytes : List ℕ) (q : FrameQueue)
    → enqueue_fragments fuel size bytes q ≡ enqueue_all (chunks fuel size bytes) q
unfolding enqueue_fragments chunks enqueue_all
enqueue_fragments-chunks zero size bytes q = refl
enqueue_fragments-chunks (suc fuel) size bytes q = elim (Bool-cases (ltb size (length bytes))) [
  | inl e ↦
      let (d, ds, shape) = chunks_shape fuel size (drop size bytes) in
      rw (e, shape)
        (ap
          (λ (k : FrameQueue → Queued). (do
            (ret, q') ← enqueue_message (take size bytes) false q
            elim ret [ ok ↦ k q' | other ↦ some (other, q') ]))
          (fun_ext (λ q'.
            enqueue_fragments-chunks fuel size (drop size bytes) q'
            ∙ ap (λ (es : List (List ℕ)). enqueue_all es q') shape)))
  | inr e ↦ rw e
]

pub concat-chunks : (fuel size : ℕ) (bytes : List ℕ) → concat (chunks fuel size bytes) ≡ bytes
unfolding chunks
concat-chunks zero size bytes = append-nil bytes
concat-chunks (suc fuel) size bytes = ground (
  arith,
  concat-chunks fuel size (drop size bytes),
  take-append-drop size bytes,
  append-nil bytes,
)

abbrev pub AllShort : ℕ → List (List ℕ) → Type 0
AllShort n [] = Unit {0}
AllShort n (c ∷ cs) = (length c < n) × AllShort n cs

pub chunks-AllShort :
    (fuel size n : ℕ) (bytes : List ℕ) → length bytes < n → AllShort n (chunks fuel size bytes)
unfolding chunks
chunks-AllShort zero size n bytes h = (h, tt)
chunks-AllShort (suc fuel) size n bytes h = elim (Bool-cases (ltb size (length bytes))) [
  | inl e ↦ rw e (
    omega (arith, length-take size bytes),
    chunks-AllShort fuel size n (drop size bytes) (omega (arith, length-drop size bytes)),
  )
  | inr e ↦ rw e (h, tt)
]

take-ne-nil : (n : ℕ) (bytes : List ℕ) → 1 ≤ n → bytes ≢ [] → take n bytes ≢ []
take-ne-nil zero bytes h ne = absurd (omega arith)
take-ne-nil (suc n) [] h ne = ne
take-ne-nil (suc n) (b ∷ bytes) h ne = λ e. cc

drop-ne-nil : (n : ℕ) (bytes : List ℕ) → n < length bytes → drop n bytes ≢ []
drop-ne-nil n bytes h = λ e. omega (arith, ap length e, length-drop n bytes)

chunks_nonempty :
    (fuel size : ℕ) (bytes : List ℕ) → 1 ≤ size → bytes ≢ [] → AllNonempty (chunks fuel size bytes)
unfolding chunks
chunks_nonempty zero size bytes pos ne = (ne, tt)
chunks_nonempty (suc fuel) size bytes pos ne = elim (Bool-cases (ltb size (length bytes))) [
  | inl e ↦ rw e (
    take-ne-nil size bytes pos ne,
    chunks_nonempty fuel size (drop size bytes) pos (drop-ne-nil size bytes (ltb→lt _ _ e)),
  )
  | inr e ↦ rw e (ne, tt)
]

pub chunks_few :
    (fuel size k : ℕ) (bytes : List ℕ)
    → length bytes ≤ suc k * size
    → length (chunks fuel size bytes) ≤ suc k
unfolding chunks
chunks_few zero size k bytes h = omega arith
chunks_few (suc fuel) size zero bytes h = ground arith
chunks_few (suc fuel) size (suc k) bytes h = elim (Bool-cases (ltb size (length bytes))) [
  | inl e ↦ rw e (
      let ih =
        chunks_few fuel size k (drop size bytes)
          (omega (arith, length-drop size bytes, ltb→lt size (length bytes) e)) in
      omega arith)
  | inr e ↦ rw e (omega arith)
]

-- A frame that does not fit one packet makes two pieces or more.
pub chunks_several :
    (size : ℕ) (bytes : List ℕ)
    → size < length bytes
    → (c d : List ℕ) × (cs : List (List ℕ)) × (chunks (length bytes) size bytes ≡ c ∷ d ∷ cs)
unfolding chunks
chunks_several size [] h = absurd (omega arith)
chunks_several size (b ∷ bytes) h =
    let (d, cs, shape) = chunks_shape (length bytes) size (drop size (b ∷ bytes)) in
    (take size (b ∷ bytes), d, cs, rw (lt→ltb size (suc (length bytes)) h, shape))

payload_size-fill_header :
    (e : Env) (old : Bool) (r : Rtp) → (fill_header e old r).0.payload_size ≡ r.payload_size
unfolding fill_header
payload_size-fill_header e true r = ground arith
payload_size-fill_header e false r = ground arith

abbrev pub pieces : FrameQueue → List ℕ → List (List ℕ)
pieces q bytes = chunks (length bytes) q.rtp.payload_size bytes

abbrev pub sent_wire : Env → List ℕ → FrameQueue → List (List ℕ)
sent_wire e bytes q =
    let (r, common) = fill_header e false q.rtp in wire_from common r (pieces q bytes)

not_small : (size n : ℕ) → size < n → leb n size ≡ false
not_small size n h = ground arith

flush_row :
    (q : FrameQueue) (t : Transaction) (sendto : List (List ℕ) → Bool)
    → q.active ≡ some t
    → t.packets ≢ []
    → sendto (flushed t) ≡ true
    → flush_queue false sendto q ≡ some (ok, record q { active = none }, flushed t)
unfolding flush_queue
flush_row q t sendto e ne sends = ground arith

abbrev fresh : List ℕ → List ℕ → Transaction
fresh common bytes = record {
  buffers = [];
  packets = [];
  rtp_common = common;
  rtp_headers = [];
  rtpauth_ptr = 0;
  data_raw = bytes;
}

abbrev filled : Transaction → Rtp → List (List ℕ) → Transaction
filled t r ps = record t {
  packets = packets_from 0 ps;
  rtp_headers = headers_from t.rtp_common r ps;
}

flushed-filled :
    (t : Transaction) (r : Rtp) (ps : List (List ℕ)) (c d : List ℕ) (cs : List (List ℕ))
    → ps ≡ c ∷ d ∷ cs
    → flushed (filled t r ps) ≡ wire_from t.rtp_common r ps
flushed-filled t r ps c d cs e = rw e (flushed-row t r c d cs)

packets_from-ne-nil :
    (ps : List (List ℕ)) (c : List ℕ) (cs : List (List ℕ)) → ps ≡ c ∷ cs → packets_from 0 ps ≢ []
packets_from-ne-nil ps c cs e = rw e (λ h. cc)

-- From the transaction on: the pieces are queued and flushed.
push_started_fragments :
    (common : List ℕ) (q : FrameQueue) (sendto : List (List ℕ) → Bool) (bytes : List ℕ)
    → flag_set q.rce_flags rce_fragment_generic ≡ true
    → flag_set q.rce_flags rce_srtp_authenticate_rtp ≡ false
    → 1 ≤ q.rtp.payload_size
    → q.rtp.payload_size < length bytes
    → length bytes ≤ max_msg_count * q.rtp.payload_size
    → sendto (wire_from common q.rtp (pieces q bytes)) ≡ true
    → push_started false sendto bytes (record q { active = some (fresh common bytes) })
      ≡ some (
        ok,
        record q { active = none; rtp = advance_by (length (pieces q bytes)) q.rtp },
        wire_from common q.rtp (pieces q bytes),
      )
unfolding push_started
push_started_fragments common q sendto bytes on plain pos long few sends =
    let (c, d, cs, shape) = chunks_several q.rtp.payload_size bytes long in
    let q0 : FrameQueue = record q { active = some (fresh common bytes) } in
    let ps : List (List ℕ) = pieces q bytes in
    let r : Rtp = advance_by (length ps) q.rtp in
    let t1 : Transaction = filled (fresh common bytes) q.rtp ps in
    let q1 : FrameQueue = record q { active = some t1; rtp = r } in
    let sent = flushed-filled (fresh common bytes) q.rtp ps c (d) (cs) shape in
    let queued : enqueue_fragments (length bytes) q.rtp.payload_size bytes q0 ≡ some (ok, q1) =
      enqueue_fragments-chunks (length bytes) q.rtp.payload_size bytes q0
      ∙ enqueue_all_lem ps q0 (fresh common bytes) refl plain
          (chunks_nonempty (length bytes) q.rtp.payload_size bytes pos
            (λ h. omega (arith, ap length h)))
          (let room = chunks_few (length bytes) q.rtp.payload_size 4999 bytes few in omega arith) in
    let out =
      flush_row q1 t1 sendto refl (packets_from-ne-nil ps c (d ∷ cs) shape) (ap sendto sent ∙ sends)
      ∙ ap (λ (w : List (List ℕ)). some (ok, record q { active = none; rtp = r }, w)) sent in
    rw (on, not_small q.rtp.payload_size (length bytes) long, queued) out

-- With RCE_FRAGMENT_GENERIC and without authentication tags, a frame that is larger than the payload
-- size and makes no more packets than the queue has headers, pushed while the socket takes packets,
-- is sent as its pieces of the payload size and the rest, in order, under the header that was filled
-- for the frame, consecutive sequence numbers, and the marker bit in the last packet only.
pub push_media_frame_fragments :
    (e : Env) (q : FrameQueue) (sendto : List (List ℕ) → Bool) (b : ℕ) (bytes : List ℕ)
    → flag_set q.rce_flags rce_fragment_generic ≡ true
    → flag_set q.rce_flags rce_srtp_authenticate_rtp ≡ false
    → 1 ≤ q.rtp.payload_size
    → q.rtp.payload_size < length (b ∷ bytes)
    → length (b ∷ bytes) ≤ max_msg_count * q.rtp.payload_size
    → sendto (sent_wire e (b ∷ bytes) q) ≡ true
    → push_media_frame e false sendto (b ∷ bytes) q
      ≡ some (
        ok,
        record q {
          active = none;
          rtp = advance_by (length (pieces q (b ∷ bytes))) (fill_header e false q.rtp).0;
        },
        sent_wire e (b ∷ bytes) q,
      )
unfolding push_media_frame init_transaction
push_media_frame_fragments e q sendto b bytes on plain pos long few sends =
    let same = payload_size-fill_header e false q.rtp in
    rw same at (
      push_started_fragments (fill_header e false q.rtp).1
        (record q { rtp = (fill_header e false q.rtp).0 }) sendto (b ∷ bytes) on plain (rw same pos)
        (rw same long) (rw same few) (rw same sends))
