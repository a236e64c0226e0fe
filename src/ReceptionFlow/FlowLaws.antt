-- ===== src/ReceptionFlow/FlowLaws.antt =====
-- The queue of frames and the maps of handlers and hooks of src/reception_flow.cc.
use uvg_rtp.Prelude.{
  ◌==◌, if◌then◌else◌, Option-cases, length, ◌>>=◌, lookup, erase, lookup-insert, lookup-erase, ℕ,
  zero, suc, ◌≡◌, refl, sym, ap, ◌∙◌, inl, inr, false, Option, none, some, List, [], ◌∷◌, ◌++◌, map,
  append-nil, append_assoc, arith,
}
use uvg_rtp.Frame.{RtpFrame}
use uvg_rtp.ReceptionFlow.Flow.{
  Flow, insert_new, move_key, update_remote_ssrc, frame_hook, return_frame, front, waits,
  pull_frame,
}

module _ {W : Type 0} where
  abbrev pub return_frames : List RtpFrame → Flow W → Flow W
  return_frames [] s = s
  return_frames (f ∷ fs) s = return_frames fs (return_frame f s)

  -- As many calls of pull_frame() as the number says; `none` if one waits.
  abbrev pub pull_frames : ℕ → Flow W → Option (Flow W × List (Option RtpFrame))
  pull_frames zero s = some (s, [])
  pull_frames (suc n) s = do
    (s', f) ← pull_frame s
    (last, fs) ← pull_frames n s'
    some (last, f ∷ fs)

  -- No hook is for any of the frames.
  abbrev pub Unhooked : Flow W → List RtpFrame → Type 0
  Unhooked s [] = Unit {0}
  Unhooked s (f ∷ fs) = (frame_hook s f.header.ssrc ≡ none) × Unhooked s fs

  pub return_frame_queued :
      (s : Flow W) (f : RtpFrame)
      → frame_hook s f.header.ssrc ≡ none
      → return_frame f s ≡ record s { frames = s.frames ++ (f ∷ []) }
  unfolding return_frame
  return_frame_queued s f h = ground arith

  pub frame_hook-frames :
      (s : Flow W) (fs : List RtpFrame) (ssrc : ℕ)
      → frame_hook (record s { frames = fs }) ssrc ≡ frame_hook s ssrc
  unfolding frame_hook
  frame_hook-frames s fs ssrc = refl

  return_frames_queued :
      (s : Flow W) (before fs : List RtpFrame)
      → Unhooked s fs
      → return_frames fs (record s { frames = before }) ≡ record s { frames = before ++ fs }
  return_frames_queued s before [] h =
      ap (λ (l : List RtpFrame). record s { frames = l }) (sym (append-nil before))
  return_frames_queued s before (f ∷ fs) h =
      ap (return_frames fs) (
        return_frame_queued (record s { frames = before }) f
          (frame_hook-frames s before f.header.ssrc ∙ h.0))
      ∙ return_frames_queued s (before ++ (f ∷ [])) fs h.1
      ∙ ap (λ (l : List RtpFrame). record s { frames = l }) (append_assoc before (f ∷ []) fs)

  pull_frame_front :
      (s : Flow W) (f : RtpFrame) (fs : List RtpFrame)
      → s.should_stop ≡ false
      → pull_frame (record s { frames = f ∷ fs }) ≡ some (record s { frames = fs }, some f)
  unfolding pull_frame waits front
  pull_frame_front s f fs running = ground (arith, running)

  pull_frames_all :
      (s : Flow W) (fs : List RtpFrame)
      → s.should_stop ≡ false
      → pull_frames (length fs) (record s { frames = fs })
        ≡ some (record s { frames = [] }, map some fs)
  pull_frames_all s [] running = refl
  pull_frames_all s (f ∷ fs) running =
      rw (pull_frame_front s f fs running, pull_frames_all s fs running) refl

  -- Frames without a hook that a running flow with an empty queue returns are what as many calls of
  -- pull_frame() give, in order and without waiting, and the flow is as before.
  pub pull_frames-return_frames :
      (s : Flow W) (fs : List RtpFrame)
      → s.should_stop ≡ false
      → s.frames ≡ []
      → Unhooked s fs
      → pull_frames (length fs) (return_frames fs s) ≡ some (s, map some fs)
  pull_frames-return_frames s fs running empty unhooked =
      let same : s ≡ record s { frames = [] } = λ i. record s { frames = empty i } in
      ap (λ (x : Flow W). pull_frames (length fs) (return_frames fs x)) same
      ∙ ap (pull_frames (length fs)) (return_frames_queued s [] fs unhooked)
      ∙ pull_frames_all s fs running
      ∙ ap (λ (x : Flow W). some (x, map some fs)) (sym same)

-- Where an entry of a map is after update_remote_ssrc(), by the numbers alone.
abbrev pub entry_after : {V : Type 0} → ℕ → ℕ → ℕ → List (ℕ × V) → Option V
entry_after old new key m = elim (lookup old m) [
  | none ↦ lookup key m
  | some v ↦
      if key == old
      then (if old == new then some v else none)
      else if key == new
      then elim (lookup new m) [ none ↦ some v | some w ↦ some w ]
      else lookup key m
]

lookup-insert_new :
    {V : Type 0} (key new : ℕ) (v : V) (m : List (ℕ × V))
    → lookup key (insert_new new v m) ≡ (
        if key == new
        then elim (lookup new m) [ none ↦ some v | some w ↦ some w ]
        else lookup key m)
unfolding insert_new
lookup-insert_new key new v m = elim (Option-cases (lookup new m)) [
  | inl e ↦ ground (arith, lookup-insert new key v m)
  | inr (w, e) ↦ ground arith
]

lookup-move_key :
    {V : Type 0} (old new key : ℕ) (m : List (ℕ × V))
    → lookup key (move_key old new m) ≡ entry_after old new key m
unfolding move_key
lookup-move_key {V = V} old new key m = elim (Option-cases (lookup old m)) [
  | inl e ↦ ground arith
  | inr (v, e) ↦ ground (
    arith,
    lookup-insert_new key new v (erase old m),
    lookup-erase old new m,
    lookup-erase old key m,
  )
]

-- After update_remote_ssrc(), for the handlers and for the hooks alike: nothing changes if the old
-- number had no entry; else the old number has none, unless it is the new one, the new number has the
-- entry that it had before, or that of the old one if it had none, and other numbers have theirs.
pub update_remote_ssrc_lem :
    {W : Type 0} (old new key : ℕ) (s : Flow W)
    → let s' = (update_remote_ssrc old new s).1 in
      (lookup key s'.packet_handlers ≡ entry_after old new key s.packet_handlers)
      × (lookup key s'.hooks ≡ entry_after old new key s.hooks)
unfolding update_remote_ssrc
update_remote_ssrc_lem old new key s =
    (lookup-move_key old new key s.packet_handlers, lookup-move_key old new key s.hooks)
