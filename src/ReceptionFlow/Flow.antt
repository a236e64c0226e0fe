-- ===== src/ReceptionFlow/Flow.antt =====
-- src/reception_flow.cc and src/reception_flow.hh: the handlers and hooks of a reception flow, and the
-- queue of frames that the user pulls from. What handlers and hooks work on, the streams that installed
-- them, is the type `W`.
use uvg_rtp.Prelude.{
  ◌==◌, if◌then◌else◌, length, lookup, insert, erase, ℕ, Bool, true, not, ◌&&◌, ◌||◌, Option, none,
  some, List, [], ◌∷◌, ◌++◌,
}
use uvg_rtp.Util.{RtpError, ok, invalid_value}
use uvg_rtp.Frame.{RtpFrame, FramePtr}

-- The error code, the pointer to the frame and the streams after a handler.
abbrev pub Seen : Type 0 → Type 0
Seen W = RtpError × FramePtr × W

-- struct packet_handler: the function with its argument. The pointer to the frame is taken and given;
-- a handler has no value when it reads what is not there.
abbrev pub PacketHandler : Type 0 → Type 0
PacketHandler W = ℕ → List ℕ → FramePtr → W → Option (Seen W)

-- struct handler.
pub record Handlers (W : Type 0) : Type 0 where
  pub rtp : Option (PacketHandler W)
  pub rtcp : Option (PacketHandler W)
  pub zrtp : Option (PacketHandler W)
  pub srtp : Option (PacketHandler W)
  pub media : Option (PacketHandler W)
  pub rtcp_common : Option (PacketHandler W)
  pub getter : Option (W → Seen W)

pub record Flow (W : Type 0) : Type 0 where
  pub frames : List RtpFrame
  pub hooks : List (ℕ × (RtpFrame → W → W))
  pub packet_handlers : List (ℕ × Handlers W)
  pub should_stop : Bool
  pub streams : W

-- std::unordered_map's insert(), which leaves an entry that is there.
unfoldable pub insert_new : {V : Type 0} → ℕ → V → List (ℕ × V) → List (ℕ × V)
insert_new key value m = elim (lookup key m) [ none ↦ insert key value m | some v ↦ m ]

unfoldable pub move_key : {V : Type 0} → ℕ → ℕ → List (ℕ × V) → List (ℕ × V)
move_key old new m = elim (lookup old m) [ none ↦ m | some v ↦ insert_new new v (erase old m) ]

module _ {W : Type 0} where
  unfoldable pub no_handlers : Handlers W
  no_handlers = record {
    rtp = none;
    rtcp = none;
    zrtp = none;
    srtp = none;
    media = none;
    rtcp_common = none;
    getter = none;
  }

  -- The constructor, and clear_frames().
  unfoldable pub new_flow : W → Flow W
  new_flow w = record {
    frames = [];
    hooks = [];
    packet_handlers = [];
    should_stop = true;
    streams = w;
  }

  unfoldable pub clear_frames : Flow W → Flow W
  clear_frames s = record s { frames = [] }

  unfoldable pub install_receive_hook : Option (RtpFrame → W → W) → ℕ → Flow W → RtpError × Flow W
  install_receive_hook none remote_ssrc s = (invalid_value, s)
  install_receive_hook (some hook) remote_ssrc s =
      (ok, record s { hooks = insert remote_ssrc hook s.hooks })

  -- `packet_handlers_[ssrc]`, which makes an entry if there is none.
  unfoldable pub handlers_at : ℕ → Flow W → Handlers W
  handlers_at ssrc s = elim (lookup ssrc s.packet_handlers) [ none ↦ no_handlers | some h ↦ h ]

  unfoldable pub set_handler : ℕ → PacketHandler W → Handlers W → Option (Handlers W)
  set_handler type f h =
      if type == 1
      then some (record h { rtp = some f })
      else if type == 2
      then some (record h { rtcp = some f })
      else if type == 3
      then some (record h { zrtp = some f })
      else if type == 4
      then some (record h { srtp = some f })
      else if type == 5
      then some (record h { media = some f })
      else if type == 6
      then some (record h { rtcp_common = some f })
      else none

  unfoldable pub install_handler : ℕ → ℕ → PacketHandler W → Flow W → RtpError × Flow W
  install_handler type remote_ssrc f s = elim (set_handler type f (handlers_at remote_ssrc s)) [
    | none ↦ (ok, s)
    | some h ↦ (ok, record s { packet_handlers = insert remote_ssrc h s.packet_handlers })
  ]

  unfoldable pub install_getter : ℕ → (W → Seen W) → Flow W → RtpError × Flow W
  install_getter remote_ssrc g s = (
    ok,
    record s {
      packet_handlers =
          insert remote_ssrc (record (handlers_at remote_ssrc s) { getter = some g })
            s.packet_handlers;
    },
  )

  unfoldable pub remove_handlers : ℕ → Flow W → RtpError × Flow W
  remove_handlers remote_ssrc s = elim (lookup remote_ssrc s.packet_handlers) [
    | none ↦ (invalid_value, s)
    | some h ↦ (ok, record s { packet_handlers = erase remote_ssrc s.packet_handlers })
  ]

  -- 1 when no stream is left.
  unfoldable pub clear_stream_from_flow : ℕ → Flow W → ℕ × Flow W
  clear_stream_from_flow ssrc s =
      let hooks' = erase ssrc s.hooks in
      let handlers' = erase ssrc s.packet_handlers in
      (
        if (length hooks' == 0) && (length handlers' == 0) then 1 else 0,
        record s { hooks = hooks'; packet_handlers = handlers' },
      )

  unfoldable pub update_remote_ssrc : ℕ → ℕ → Flow W → RtpError × Flow W
  update_remote_ssrc old new s = (
    ok,
    record s {
      packet_handlers = move_key old new s.packet_handlers;
      hooks = move_key old new s.hooks;
    },
  )

  -- The hook or the queue that a frame goes to.
  unfoldable pub frame_hook : Flow W → ℕ → Option (RtpFrame → W → W)
  frame_hook s ssrc = elim s.hooks [
    | [] ↦ none
    | (key, hook) ∷ more ↦ elim more [ [] ↦ some hook | other ∷ others ↦ lookup ssrc s.hooks ]
  ]

  unfoldable pub return_frame : RtpFrame → Flow W → Flow W
  return_frame frame s = elim (frame_hook s frame.header.ssrc) [
    | none ↦ record s { frames = s.frames ++ (frame ∷ []) }
    | some hook ↦ record s { streams = hook frame s.streams }
  ]

  unfoldable pub front : Flow W → Flow W × Option RtpFrame
  front s = elim s.frames [ [] ↦ (s, none) | f ∷ fs ↦ (record s { frames = fs }, some f) ]

  -- The first frame if it is of this sender.
  unfoldable pub front_of : ℕ → Flow W → Flow W × Option RtpFrame
  front_of ssrc s = elim s.frames [
    | [] ↦ (s, none)
    | f ∷ fs ↦ if f.header.ssrc == ssrc then (record s { frames = fs }, some f) else (s, none)
  ]

  -- pull_frame(): `none` while it waits. The wait ends when there is a frame or the flow stops.
  unfoldable pub waits : Flow W → Bool
  waits s = (length s.frames == 0) && not s.should_stop

  unfoldable pub pull_frame : Flow W → Option (Flow W × Option RtpFrame)
  pull_frame s =
      if waits s then none else (if s.should_stop then some (s, none) else some (front s))

  unfoldable pub pull_frame_of : ℕ → Flow W → Option (Flow W × Option RtpFrame)
  pull_frame_of ssrc s =
      if waits s then none else (if s.should_stop then some (s, none) else some (front_of ssrc s))

  -- With a timeout, of which is given whether it has passed.
  unfoldable pub pull_frame_timeout : Bool → Flow W → Option (Flow W × Option RtpFrame)
  pull_frame_timeout passed s =
      if waits s && not passed
      then none
      else (if s.should_stop || (length s.frames == 0) then some (s, none) else some (front s))

  unfoldable pub pull_frame_of_timeout : Bool → ℕ → Flow W → Option (Flow W × Option RtpFrame)
  pull_frame_of_timeout passed ssrc s =
      if waits s && not passed
      then none
      else (if s.should_stop || (length s.frames == 0)
          then some (s, none)
          else some (front_of ssrc s))
