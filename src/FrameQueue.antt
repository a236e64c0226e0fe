-- ===== src/FrameQueue.antt =====
-- src/frame_queue.hh and src/frame_queue.cc: the packets of one media frame are queued as a
-- transaction and sent together. `none` is a fault of the program: a null transaction that is read,
-- or a write behind the array of RTP headers. The socket is a function that says whether it took the
-- packets; waiting for the frame rate changes no packet and is left out.
pub mod Laws
use uvg_rtp.Prelude.{
  ℕ, zero, suc, ◌+◌, ◌*◌, ◌/◌, ◌%◌, ◌^◌, Bool, true, false, not, ◌&&◌, ◌||◌, Option, none, some,
  List, [], ◌∷◌, ◌++◌, map, ◌==◌, ltb, leb, if◌then◌else◌, length, get_or, set, take, drop,
  replicate, flag_set, ◌>>=◌,
}
use uvg_rtp.Util.{
  RtpError, ok, invalid_value, generic_error, send_error, rce_srtp, rce_srtp_null_cipher,
  rce_srtp_authenticate_rtp,
}
use uvg_rtp.Rtp.Context.{Rtp, Env, fill_header, update_sequence, inc_sequence, inc_sent_pkts}

-- MAX_MSG_COUNT.
abbrev pub max_msg_count : ℕ
max_msg_count = 5000

-- One (size, pointer) pair of a buf_vec: an entry of the transaction's header array, an entry of its
-- array of authentication tags, or octets that do not change until the transaction is flushed.
pub data Buf : Type 0 where
  header_at auth_tag_at : ℕ → Buf
  octets : List ℕ → Buf

-- struct transaction. `rtp_headers` holds the entries that were written, so its length is
-- `rtphdr_ptr`; `buffers` is the caller's scratch list.
pub record Transaction : Type 0 where
  pub buffers : List (List ℕ)
  pub packets : List (List Buf)
  pub rtp_common : List ℕ
  pub rtp_headers : List (List ℕ)
  pub rtpauth_ptr : ℕ
  pub data_raw : List ℕ

-- class frame_queue.
pub record FrameQueue : Type 0 where
  pub active : Option Transaction
  pub rtp : Rtp
  pub rce_flags : ℕ

-- What a call returns, and the queue that it leaves.
abbrev pub Queued : Type 0
Queued = Option (RtpError × FrameQueue)

unfoldable pub deinit_transaction : FrameQueue → RtpError × FrameQueue
deinit_transaction q = elim q.active [
  | none ↦ (invalid_value, q)
  | some t ↦ (ok, record q { active = none })
]

-- The common header is filled once for all packets of the transaction. An active transaction is
-- dropped first.
unfoldable pub init_transaction : Env → List ℕ → Bool → FrameQueue → RtpError × FrameQueue
init_transaction e [] old_rtp_ts q = (invalid_value, q)
init_transaction e (d ∷ bytes) old_rtp_ts q =
    let (rtp', common) = fill_header e old_rtp_ts q.rtp in
    (
      ok,
      record q {
        rtp = rtp';
        active = some (record {
          buffers = [];
          packets = [];
          rtp_common = common;
          rtp_headers = [];
          rtpauth_ptr = 0;
          data_raw = d ∷ bytes;
        });
      },
    )

-- The marker bit is the high bit of octet 1.
unfoldable pub set_marker_bit : List ℕ → List ℕ
set_marker_bit header = set header 1 (get_or header 1 0 % 128 + 128)

-- update_rtp_header(): the entry at `rtphdr_ptr` becomes the common header with the next sequence
-- number. The array has `max_msg_count` entries.
unfoldable pub update_rtp_header : FrameQueue → Transaction → Option (List ℕ)
update_rtp_header q t =
    if ltb (length t.rtp_headers) max_msg_count
    then some (update_sequence q.rtp t.rtp_common)
    else none

unfoldable pub enqueue_finalize : FrameQueue → Transaction → List Buf → FrameQueue
enqueue_finalize q t tmp =
    let auth = flag_set q.rce_flags rce_srtp_authenticate_rtp in
    record q {
      active = some (record t {
        packets =
            t.packets ++ ((if auth then tmp ++ (auth_tag_at t.rtpauth_ptr ∷ []) else tmp) ∷ []);
        rtpauth_ptr = if auth then t.rtpauth_ptr + 1 else t.rtpauth_ptr;
      });
      rtp = inc_sent_pkts (inc_sequence q.rtp);
    }

-- Both overloads with a header of their own: the header entry, then the message's buffers.
unfoldable pub enqueue_buffers : Bool → List Buf → FrameQueue → Queued
unfolding enqueue_finalize
enqueue_buffers set_m_bit bufs q = do
  t ← q.active
  header ← update_rtp_header q t
  let header' = if set_m_bit then set_marker_bit header else header
  some (
    ok,
    enqueue_finalize q (record t { rtp_headers = t.rtp_headers ++ (header' ∷ []) })
        (header_at (length t.rtp_headers) ∷ bufs),
  )

unfoldable pub enqueue_message : List ℕ → Bool → FrameQueue → Queued
enqueue_message [] set_m_bit q = some (invalid_value, q)
enqueue_message (b ∷ message) set_m_bit q = enqueue_buffers set_m_bit (octets (b ∷ message) ∷ []) q

abbrev pub concat : List (List ℕ) → List ℕ
concat [] = []
concat (x ∷ xs) = x ++ concat xs

-- `buffers.size() > 1`.
unfoldable pub has_several : List (List ℕ) → Bool
has_several [] = false
has_several (x ∷ []) = false
has_several (x ∷ y ∷ xs) = true

-- enqueue_message(buf_vec &): with SRTP encryption several buffers are copied into one.
unfoldable pub enqueue_message_vec : List (List ℕ) → FrameQueue → Queued
unfolding has_several
enqueue_message_vec [] q = some (invalid_value, q)
enqueue_message_vec (x ∷ xs) q =
    if flag_set q.rce_flags rce_srtp
      && (not (flag_set q.rce_flags rce_srtp_null_cipher) && has_several (x ∷ xs))
    then enqueue_buffers false (octets (concat (x ∷ xs)) ∷ []) q
    else enqueue_buffers false (map octets (x ∷ xs)) q

-- The octets of one packet. Authentication tags are ten octets that the SRTP handler fills in later.
unfoldable pub packet_octets : List (List ℕ) → List Buf → List ℕ
packet_octets headers [] = []
packet_octets headers (header_at i ∷ bufs) = get_or headers i [] ++ packet_octets headers bufs
packet_octets headers (auth_tag_at i ∷ bufs) = replicate 10 0 ++ packet_octets headers bufs
packet_octets headers (octets bytes ∷ bufs) = bytes ++ packet_octets headers bufs

-- `active_->rtp_headers[active_->rtphdr_ptr - 1]` gets the marker bit.
unfoldable pub mark_last : List (List ℕ) → List (List ℕ)
unfolding set_marker_bit
mark_last [] = []
mark_last (h ∷ []) = set_marker_bit h ∷ []
mark_last (h ∷ h' ∷ hs) = h ∷ mark_last (h' ∷ hs)

unfoldable pub more_than_one : List (List Buf) → Bool
more_than_one [] = false
more_than_one (p ∷ []) = false
more_than_one (p ∷ p' ∷ ps) = true

-- The packets as they are handed to the socket.
unfoldable pub flushed : Transaction → List (List ℕ)
flushed t =
    let headers = if more_than_one t.packets then mark_last t.rtp_headers else t.rtp_headers in
    map (packet_octets headers) t.packets

-- Fragment pacing: one packet at a time, up to the first that the socket refuses.
unfoldable pub send_paced : (List (List ℕ) → Bool) → List (List ℕ) → List (List ℕ) × Bool
send_paced sendto [] = ([], true)
send_paced sendto (p ∷ ps) =
    let (sent, done) = send_paced sendto ps in
    if sendto (p ∷ []) then (p ∷ sent, done) else ([], false)

-- flush_queue(): what it returns, the queue, and the packets that the socket took.
unfoldable pub flush_queue :
    Bool → (List (List ℕ) → Bool) → FrameQueue → Option (RtpError × FrameQueue × List (List ℕ))
unfolding deinit_transaction
flush_queue paced sendto q = do
  t ← q.active
  elim t.packets [
    | [] ↦ some (invalid_value, (deinit_transaction q).1, [])
    | p ∷ ps ↦
        (let out = flushed t in
          let (sent, done) = if paced then send_paced sendto out else (out, sendto out) in
          let q' = (deinit_transaction q).1 in
          some (if done then ok else send_error, q', if done || paced then sent else []))
  ]
