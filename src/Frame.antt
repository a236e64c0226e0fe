-- ===== src/Frame.antt =====
-- include/uvgrtp/frame.hh and src/frame.cc: the frames that the handlers pass on. Pointers that may
-- be null are options; the datagram and its size are one list of bytes.
use uvg_rtp.Prelude.{ℕ, List, [], Option, none}

-- struct rtp_header.
pub record RtpHeader : Type 0 where
  pub version : ℕ
  pub padding : ℕ
  pub ext : ℕ
  pub cc : ℕ
  pub marker : ℕ
  pub payload : ℕ
  pub seq : ℕ
  pub timestamp : ℕ
  pub ssrc : ℕ

-- struct ext_header; `bytes` is its field `data`.
pub record ExtHeader : Type 0 where
  pub type : ℕ
  pub len : ℕ
  pub bytes : List ℕ

-- struct rtp_frame.
pub record RtpFrame : Type 0 where
  pub header : RtpHeader
  pub csrc : List ℕ
  pub ext : Option ExtHeader
  pub padding_len : ℕ
  pub payload_len : ℕ
  pub payload : List ℕ
  pub dgram : List ℕ

-- alloc_rtp_frame().
unfoldable pub alloc_rtp_frame : RtpFrame
alloc_rtp_frame = record {
  header = record {
    version = 0;
    padding = 0;
    ext = 0;
    cc = 0;
    marker = 0;
    payload = 0;
    seq = 0;
    timestamp = 0;
    ssrc = 0;
  };
  csrc = [];
  ext = none;
  padding_len = 0;
  payload_len = 0;
  payload = [];
  dgram = [];
}

-- An `rtp_frame **out` after a call: null, a frame, or a pointer to a frame that was deallocated.
pub data FramePtr : Type 0 where
  null freed : FramePtr
  live : RtpFrame → FramePtr
