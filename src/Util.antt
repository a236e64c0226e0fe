-- ===== src/Util.antt =====
-- include/uvgrtp/util.hh: the error codes, the payload formats and the flags.
use uvg_rtp.Prelude.{ℕ, ◌^◌}

-- rtp_error_t.
pub data RtpError : Type 0 where
  multiple_pkts_ready pkt_ready pkt_modified pkt_not_handled interrupted not_ready : RtpError
  ok generic_error socket_error bind_error invalid_value send_error memory_error : RtpError
  ssrc_collision initialized not_initialized not_supported recv_error timeout : RtpError
  not_found auth_tag_mismatch : RtpError

-- rtp_format_t. `RTP_FORMAT_GENERIC` is the same number as `pcmu`; `other` is any number that the
-- enumeration does not name.
pub data RtpFormat : Type 0 where
  pcmu gsm g723 dvi4_32 dvi4_64 lpc pcma g722 l16_stereo l16_mono g728 dvi4_441 : RtpFormat
  dvi4_882 g729 g726_40 g726_32 g726_24 g726_16 g729d g729e gsm_efr l8 vdvi opus : RtpFormat
  h264 h265 h266 atlas : RtpFormat
  other : ℕ → RtpFormat

-- The number of a format, which is its default payload type.
unfoldable pub format_number : RtpFormat → ℕ
format_number pcmu = 0
format_number gsm = 3
format_number g723 = 4
format_number dvi4_32 = 5
format_number dvi4_64 = 6
format_number lpc = 7
format_number pcma = 8
format_number g722 = 9
format_number l16_stereo = 10
format_number l16_mono = 11
format_number g728 = 15
format_number dvi4_441 = 16
format_number dvi4_882 = 17
format_number g729 = 18
format_number g726_40 = 96
format_number g726_32 = 97
format_number g726_24 = 98
format_number g726_16 = 99
format_number g729d = 100
format_number g729e = 101
format_number gsm_efr = 102
format_number l8 = 103
format_number vdvi = 104
format_number opus = 105
format_number h264 = 106
format_number h265 = 107
format_number h266 = 108
format_number atlas = 109
format_number (other n) = n

-- RTP_FLAGS and RTP_CTX_ENABLE_FLAGS, the flags that the modelled code tests.
abbrev pub rtp_no_h26x_scl : ℕ
rtp_no_h26x_scl = 2 ^ 2

abbrev pub rtp_h26x_do_not_aggr : ℕ
rtp_h26x_do_not_aggr = 2 ^ 3

abbrev pub rce_srtp : ℕ
rce_srtp = 2 ^ 3

abbrev pub rce_srtp_kmngmnt_zrtp : ℕ
rce_srtp_kmngmnt_zrtp = 2 ^ 4

abbrev pub rce_no_h26x_prepend_sc : ℕ
rce_no_h26x_prepend_sc = 2 ^ 6

abbrev pub rce_h26x_dependency_enforcement : ℕ
rce_h26x_dependency_enforcement = 2 ^ 7

abbrev pub rce_fragment_generic : ℕ
rce_fragment_generic = 2 ^ 8

abbrev pub rce_srtp_null_cipher : ℕ
rce_srtp_null_cipher = 2 ^ 10

abbrev pub rce_srtp_authenticate_rtp : ℕ
rce_srtp_authenticate_rtp = 2 ^ 11

abbrev pub rce_srtp_replay_protection : ℕ
rce_srtp_replay_protection = 2 ^ 12

abbrev pub rce_rtcp : ℕ
rce_rtcp = 2 ^ 13

abbrev pub rce_srtp_keysize_192 : ℕ
rce_srtp_keysize_192 = 2 ^ 15

abbrev pub rce_srtp_keysize_256 : ℕ
rce_srtp_keysize_256 = 2 ^ 16

abbrev pub rce_rtcp_mux : ℕ
rce_rtcp_mux = 2 ^ 21
