-- ===== src/Media.antt =====
-- src/formats/media.hh and src/formats/media.cc: frames of a format that needs no packetisation of
-- its own, sent whole or, with RCE_FRAGMENT_GENERIC, cut into packets and joined again. Frames that
-- the handler keeps are values; the last argument of each function is the state that it works on.
pub mod Receive
pub mod InOrder
pub mod Send
pub mod EndToEnd
pub mod Delivery
use uvg_rtp.Prelude.{
  ℕ, zero, suc, Bool, true, false, not, ◌&&◌, ◌||◌, Option, none, some, List, [], ◌∷◌, ltb, leb,
  if◌then◌else◌, length, take, drop, flag_set, ◌>>=◌,
}
use uvg_rtp.Util.{RtpError, ok, invalid_value, rce_fragment_generic}
use uvg_rtp.Rtp.Context.{Env}
use uvg_rtp.FrameQueue.{
  FrameQueue, init_transaction, deinit_transaction, enqueue_message, flush_queue,
}

-- What a push returns, the queue, and the packets that the socket took.
abbrev pub Pushed : Type 0
Pushed = Option (RtpError × FrameQueue × List (List ℕ))

-- The loop that cuts the frame, and the last fragment, which is queued with the marker bit. Each
-- round takes `payload_size` octets, and a payload size of 0 is refused by the queue, so the length
-- of the frame is fuel enough.
unfoldable pub enqueue_fragments : ℕ → ℕ → List ℕ → FrameQueue → Option (RtpError × FrameQueue)
enqueue_fragments zero payload_size bytes q = enqueue_message bytes true q
enqueue_fragments (suc fuel) payload_size bytes q =
    let rest =
      λ (q' : FrameQueue). enqueue_fragments fuel payload_size (drop payload_size bytes) q' in
    if ltb payload_size (length bytes)
    then (do
      (ret, q') ← enqueue_message (take payload_size bytes) false q
      elim ret [ ok ↦ rest q' | other ↦ some (other, q') ])
    else enqueue_message bytes true q

-- After the transaction was set up.
unfoldable pub push_started : Bool → (List (List ℕ) → Bool) → List ℕ → FrameQueue → Pushed
push_started paced sendto bytes q =
    let fragmentation = flag_set q.rce_flags rce_fragment_generic in
    if not fragmentation || leb (length bytes) q.rtp.payload_size
    then (do
      (ret, q') ← enqueue_message bytes fragmentation q
      elim ret [
        | ok ↦ flush_queue paced sendto q'
        | other ↦ some (other, (deinit_transaction q').1, [])
      ])
    else (do
      (ret, q') ← enqueue_fragments (length bytes) q.rtp.payload_size bytes q
      elim ret [ ok ↦ flush_queue paced sendto q' | other ↦ some (other, q', []) ])

unfoldable pub push_media_frame : Env → Bool → (List (List ℕ) → Bool) → List ℕ → FrameQueue → Pushed
push_media_frame e paced sendto bytes q =
    let (ret, q') = init_transaction e bytes false q in
    elim ret [ ok ↦ push_started paced sendto bytes q' | other ↦ some (other, q', []) ]

-- push_frame(): an empty frame is refused.
unfoldable pub push_frame : Env → Bool → (List (List ℕ) → Bool) → List ℕ → FrameQueue → Pushed
push_frame e paced sendto [] q = some (invalid_value, q, [])
push_frame e paced sendto (b ∷ bytes) q = push_media_frame e paced sendto (b ∷ bytes) q
