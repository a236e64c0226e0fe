-- ===== src/ReceptionFlow/Getter.antt =====
-- The loop over frame_getter() in process_packet(), src/reception_flow.cc, with the queue of
-- src/formats/h26x.cc.
use uvg_rtp.Prelude.{
  length, ℕ, suc, ◌≡◌, sym, ap, ◌∙◌, none, some, List, [], ◌∷◌, ◌++◌, append-nil, append_assoc,
}
use uvg_rtp.Frame.{RtpFrame}
use uvg_rtp.H26x.Reassembly.{H26xState, frame_getter}
use uvg_rtp.ReceptionFlow.Flow.{Flow, frame_hook}
use uvg_rtp.ReceptionFlow.FlowLaws.{Unhooked, return_frame_queued}
use uvg_rtp.ReceptionFlow.Dispatch.{return_pointer, return_all}

module _ (s : Flow H26xState) where
  -- The flow with these frames for the user and these in the queue.
  abbrev pub holding : List RtpFrame → List RtpFrame → Flow H26xState
  holding given queued = record s { frames = given; streams = record s.streams { queued = queued } }

  getter_step :
      (fuel : ℕ) (given queued : List RtpFrame) (f : RtpFrame)
      → frame_hook s f.header.ssrc ≡ none
      → return_all frame_getter (suc fuel) (holding given (f ∷ queued))
        ≡ return_all frame_getter fuel (holding (given ++ (f ∷ [])) queued)
  unfolding return_all return_pointer frame_getter frame_hook
  getter_step fuel given queued f unhooked =
      ap (return_all frame_getter fuel) (return_frame_queued (holding given queued) f unhooked)

  -- Frames of senders without a hook that wait in the queue of an H.26x stream all go to the user, in
  -- order, behind those that are there, in one round for each and one more, after which the queue is
  -- empty.
  pub return_all-frame_getter :
      (given queued : List RtpFrame)
      → Unhooked s queued
      → return_all frame_getter (suc (length queued)) (holding given queued)
        ≡ some (holding (given ++ queued) [])
  unfolding return_all frame_getter
  return_all-frame_getter given [] unhooked =
      ap (λ (l : List RtpFrame). some (holding l [])) (sym (append-nil given))
  return_all-frame_getter given (f ∷ queued) unhooked =
      getter_step (suc (length queued)) given queued f unhooked.0
      ∙ return_all-frame_getter (given ++ (f ∷ [])) queued unhooked.1
      ∙ ap (λ (l : List RtpFrame). some (holding l [])) (append_assoc given (f ∷ []) queued)
