-- ===== src/H26x/Fragments.antt =====
-- src/formats/h26x.cc and fu_division() of the codecs: a NAL unit that is larger than a packet is cut
-- into fragments. The three buffers of a fragment are its payload header, its fragmentation header
-- and its part of the NAL unit.
use uvg_rtp.Prelude.{
  ℕ, zero, suc, false, none, some, List, [], ◌∷◌, ltb, leb, if◌then◌else◌, length, take, drop,
  ◌>>=◌, sub64,
}
use uvg_rtp.Util.{ok, generic_error}
use uvg_rtp.FrameQueue.{FrameQueue, Queued, enqueue_message, enqueue_message_vec}
use uvg_rtp.H26x.Headers.{
  Codec, get_payload_header_size, get_nal_header_size, get_fu_header_size, get_nal_type,
  fu_payload_header, initialize_fu_headers,
}

unfoldable pub single_nal_unit : List ℕ → FrameQueue → Queued
single_nal_unit nal q = enqueue_message nal false q

-- The loop and the last fragment; `fu` is the header of the next fragment. Each round takes
-- `fu_payload_size` octets, so the length of the data is fuel enough unless that size is 0.
unfoldable pub divide_rest : ℕ → ℕ → List ℕ → ℕ → ℕ → ℕ → List ℕ → FrameQueue → Queued
divide_rest zero size header fu middle last bytes q = none
divide_rest (suc fuel) size header fu middle last bytes q =
    let rest =
      λ (q' : FrameQueue). divide_rest fuel size header middle middle last (drop size bytes) q' in
    if ltb size (length bytes)
    then (do
      (ret, q') ← enqueue_message_vec (header ∷ (fu ∷ []) ∷ take size bytes ∷ []) q
      elim ret [ ok ↦ rest q' | other ↦ some (other, q') ])
    else enqueue_message_vec (header ∷ (last ∷ []) ∷ bytes ∷ []) q

-- divide_frame_to_fus(), called by fu_division() with the headers that it has filled.
unfoldable pub fu_division : Codec → List ℕ → ℕ → FrameQueue → Queued
unfolding divide_rest
fu_division c nal payload_size q = do
  header ← fu_payload_header c nal
  nal_type ← get_nal_type c nal
  let (first, middle, last) = initialize_fu_headers nal_type
  let size = sub64 (sub64 payload_size (get_payload_header_size c)) (get_fu_header_size c)
  if leb (length nal) payload_size
      then some (generic_error, q)
      else divide_rest (length nal) size header first middle last (drop (get_nal_header_size c) nal)
          q
