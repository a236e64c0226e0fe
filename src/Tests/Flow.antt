-- ===== src/Tests/Flow.antt =====
-- The theorems on the reception flow, at concrete inputs.
use uvg_rtp.Prelude.{
  ap, ◌≢◌, get_or, length, replicate, take_exact, flag_set, lookup, ℕ, suc, ◌+◌, ◌≡◌, refl, inr,
  false, none, some, List, [], ◌∷◌, ◌++◌, map, arith,
}
use uvg_rtp.Util.{generic_error, rce_srtp, rce_rtcp}
use uvg_rtp.Frame.{RtpFrame, alloc_rtp_frame, freed}
use uvg_rtp.Rtp.Receive.{
  packet_handler, read_header, read_body, read_tail, read_ext, read_padding, copy_payload,
}
use uvg_rtp.Srtp.Packets.{recv_packet_handler, computed_tag, carried_tag}
use uvg_rtp.Rtcp.Participants.{
  Rtcp, recv_packet_handler_common, is_participant, update_participant_seq, update_seq, seq_delta,
}
use uvg_rtp.ReceptionFlow.Ring.{
  Ring, create_ring_buffer, new_ring, receive_one, process_available, datagram, nothing,
}
use uvg_rtp.ReceptionFlow.Queue.{Event, run_ring, arrivals, Fits, receive, process}
use uvg_rtp.ReceptionFlow.RingLaws.{index_at, Holds, Hold, Represents}
use uvg_rtp.ReceptionFlow.Delivery.{
  octets, arrived, process_available-run_ring, process_available-receive_one_full,
}
use uvg_rtp.ReceptionFlow.Flow.{PacketHandler, Flow, update_remote_ssrc, frame_hook}
use uvg_rtp.ReceptionFlow.FlowLaws.{
  return_frames, pull_frames, pull_frames-return_frames, update_remote_ssrc_lem,
}
use uvg_rtp.ReceptionFlow.Dispatch.{process_packet, return_all}
use uvg_rtp.MediaStream.{Streams, pointee}
use uvg_rtp.MediaStream.Receiving.{stream_flow}
use uvg_rtp.MediaStream.Outcomes.{
  process_packet_refused_rtcp, process_packet_refused, process_packet_accepted,
  process_packet_unauthenticated,
}
use uvg_rtp.H26x.Reassembly.{H26xState, frame_getter}
use uvg_rtp.ReceptionFlow.Getter.{holding, return_all-frame_getter}
use uvg_rtp.Tests.Fragments.{empty}
use uvg_rtp.Tests.Security.{toy, both_ends}
use uvg_rtp.Tests.Control.{nobody, valid_sender}

-- At four buffers of four octets each.
abbrev events : List Event
events =
    receive (datagram (1 ∷ 2 ∷ []))
    ∷ (receive (datagram (3 ∷ 4 ∷ 5 ∷ 6 ∷ 7 ∷ []))
        ∷ (process ∷ (receive (datagram (8 ∷ [])) ∷ (receive nothing ∷ []))))

process_available-run_ring_example :
    let run = run_ring 4 events (new_ring 16 4 (0 ∷ 0 ∷ 0 ∷ 0 ∷ [])) in
    let last = process_available (length run.0.ring_buffer) run.0 in
    (run.1 ++ map octets last.1 ≡ (1 ∷ 2 ∷ []) ∷ (3 ∷ 4 ∷ 5 ∷ 6 ∷ []) ∷ (8 ∷ []) ∷ [])
    × (last.0.ring_read_index ≡ last.0.last_ring_write_index)
unfolding Fits arrived arrivals new_ring create_ring_buffer
process_available-run_ring_example =
    process_available-run_ring 16 4 (0 ∷ 0 ∷ 0 ∷ 0 ∷ []) events (omega arith)
      (omega arith, (omega arith, (omega arith, (omega arith, tt))))

-- Two buffers: one packet was handed on, and one waits.
abbrev one_waits : Ring
one_waits = record {
  ring_buffer =
      record { data_octets = 5 ∷ []; read = some 0 }
      ∷ (record { data_octets = 6 ∷ []; read = some 1 } ∷ []);
  ring_read_index = some 0;
  last_ring_write_index = some 1;
}

one_waits-Represents : Represents one_waits 1 ((6 ∷ []) ∷ [])
unfolding index_at Hold Holds
one_waits-Represents = record {
  read_index = refl;
  write_index = refl;
  waiting = ((refl, refl, omega arith), tt);
  room = omega arith;
}

process_available-receive_one_full_example :
    process_available 2 (receive_one 1 (datagram (7 ∷ [])) one_waits).0
    ≡ ((receive_one 1 (datagram (7 ∷ [])) one_waits).0, [])
process_available-receive_one_full_example =
    process_available-receive_one_full 1 2 0 (7 ∷ []) one_waits ((6 ∷ []) ∷ []) one_waits-Represents
      refl (omega arith)

abbrev frame_of_sender : ℕ → RtpFrame
unfolding alloc_rtp_frame
frame_of_sender n = record alloc_rtp_frame { header = record alloc_rtp_frame.header { ssrc = n } }

-- A running flow, with a number as its streams' state.
abbrev idle : Flow ℕ
idle = record { frames = []; hooks = []; packet_handlers = []; should_stop = false; streams = 0 }

pull_frames-return_frames_example :
    pull_frames 2 (return_frames (frame_of_sender 3 ∷ (frame_of_sender 4 ∷ [])) idle)
    ≡ some (idle, some (frame_of_sender 3) ∷ (some (frame_of_sender 4) ∷ []))
unfolding frame_hook
pull_frames-return_frames_example =
    pull_frames-return_frames idle (frame_of_sender 3 ∷ (frame_of_sender 4 ∷ [])) refl refl
      (refl, (refl, tt))

-- A hook for sender 3, which counts its frames.
abbrev hooked : Flow ℕ
hooked = record idle { hooks = (3, λ f n. suc n) ∷ [] }

update_remote_ssrc_example :
    let s' = (update_remote_ssrc 3 8 hooked).1 in
    (lookup 8 s'.packet_handlers ≡ none) × (lookup 8 s'.hooks ≡ some (λ f n. suc n))
unfolding lookup
update_remote_ssrc_example = update_remote_ssrc_lem 3 8 8 hooked

abbrev streams : Streams
streams = record {
  rtcp = record nobody { participants = (9, valid_sender) ∷ [] };
  srtp = both_ends;
  fragments = [];
  ntp_now = 1;
  elapsed = 2;
}

-- The padding bit is set, and the last octet is 0.
abbrev padded : List ℕ
padded = 160 ∷ 96 ∷ 0 ∷ 0 ∷ 0 ∷ 0 ∷ 0 ∷ 1 ∷ 0 ∷ 0 ∷ 0 ∷ 9 ∷ 5 ∷ 0 ∷ []

abbrev control : PacketHandler Streams
control rce_flags packet frame w = none

process_packet_refused_rtcp_example :
    process_packet rce_rtcp 0 padded 14 (stream_flow toy control rce_rtcp 9 [] streams) ≡ none
unfolding flag_set packet_handler read_header read_body read_tail read_ext read_padding copy_payload
    pointee take_exact
process_packet_refused_rtcp_example =
    process_packet_refused_rtcp toy control rce_rtcp 9 0 14 padded [] streams generic_error freed
      (omega arith, refl) refl refl refl refl

process_packet_refused_example :
    process_packet 0 0 padded 14 (stream_flow toy control 0 9 [] streams)
    ≡ some (stream_flow toy control 0 9 [] streams)
unfolding flag_set packet_handler read_header read_body read_tail read_ext read_padding copy_payload
    pointee take_exact
process_packet_refused_example =
    process_packet_refused toy control 0 9 0 14 padded [] streams generic_error freed
      (omega arith, refl) refl refl refl (inr (refl, refl))

abbrev plain : List ℕ
plain = 128 ∷ 96 ∷ 0 ∷ 0 ∷ 0 ∷ 0 ∷ 0 ∷ 1 ∷ 0 ∷ 0 ∷ 0 ∷ 9 ∷ replicate 12 7

abbrev plain_frame : RtpFrame
unfolding alloc_rtp_frame
plain_frame = record alloc_rtp_frame {
  header = record {
    version = 2;
    padding = 0;
    ext = 0;
    cc = 0;
    marker = 0;
    payload = 96;
    seq = 0;
    timestamp = 1;
    ssrc = 9;
  };
  payload_len = 12;
  payload = replicate 12 7;
  dgram = plain;
}

process_packet_accepted_example :
    process_packet 0 0 plain 24 (stream_flow toy control 0 9 [] streams)
    ≡ some (stream_flow toy control 0 9 (plain_frame ∷ []) streams)
unfolding flag_set packet_handler read_header read_body read_tail read_ext read_padding copy_payload
    pointee take_exact
process_packet_accepted_example =
    process_packet_accepted toy control 0 9 0 24 plain [] streams plain_frame (omega arith, refl)
      refl refl refl refl

abbrev srtp_and_rtcp : ℕ
srtp_and_rtcp = rce_srtp + rce_rtcp

abbrev counted : Rtcp
counted = (recv_packet_handler_common 1 2 plain_frame streams.rtcp).1

wrong_tag : computed_tag toy both_ends plain_frame ≢ carried_tag toy plain_frame
unfolding computed_tag carried_tag plain_frame
wrong_tag = λ e.
    let right : get_or (computed_tag toy both_ends plain_frame) 1 0 ≡ 0 = refl in
    let wrong : get_or (carried_tag toy plain_frame) 1 0 ≡ 7 = refl in
    omega (arith, ap (λ (l : List ℕ). get_or l 1 0) e)

process_packet_unauthenticated_example :
    process_packet srtp_and_rtcp 0 plain 24 (stream_flow toy control srtp_and_rtcp 9 [] streams)
    ≡ some (
        stream_flow toy control srtp_and_rtcp 9
          (plain_frame ∷ [])
          (record streams { rtcp = counted }))
unfolding flag_set packet_handler read_header read_body read_tail read_ext read_padding copy_payload
    pointee take_exact recv_packet_handler recv_packet_handler_common computed_tag carried_tag
    is_participant lookup update_participant_seq update_seq seq_delta
process_packet_unauthenticated_example =
    process_packet_unauthenticated toy control srtp_and_rtcp 9 0 24 plain [] streams plain_frame
      counted (omega arith, refl) refl refl refl refl refl wrong_tag refl

abbrev video : Flow H26xState
video = record {
  frames = [];
  hooks = [];
  packet_handlers = [];
  should_stop = false;
  streams = empty;
}

return_all-frame_getter_example :
    return_all frame_getter 3 (holding video [] (frame_of_sender 3 ∷ (frame_of_sender 4 ∷ [])))
    ≡ some (holding video (frame_of_sender 3 ∷ (frame_of_sender 4 ∷ [])) [])
unfolding frame_hook
return_all-frame_getter_example =
    return_all-frame_getter video [] (frame_of_sender 3 ∷ (frame_of_sender 4 ∷ []))
      (refl, (refl, tt))
