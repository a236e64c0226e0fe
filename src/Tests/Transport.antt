-- ===== src/Tests/Transport.antt =====
-- The theorems on RTP packets and media frames, at concrete inputs.
use uvg_rtp.Prelude.{
  ℕ, ◌≤◌, ◌≡◌, ◌≢◌, refl, arith, Bool, true, false, none, some, List, [], ◌∷◌, length, flag_set,
  lookup,
}
use uvg_rtp.Util.{opus, ok, pkt_modified}
use uvg_rtp.Frame.{RtpFrame, live}
use uvg_rtp.Rtp.Context.{Rtp, Env}
use uvg_rtp.Rtp.Receive.{packet_handler}
use uvg_rtp.Rtp.Encode.{packet_bytes}
use uvg_rtp.Rtp.RoundTrip.{packet_handler-packet_bytes}
use uvg_rtp.Rtp.Safety.{packet_handler_in_bounds, packet_handler_overrun}
use uvg_rtp.FrameQueue.{FrameQueue}
use uvg_rtp.FrameQueue.Laws.{advance_by}
use uvg_rtp.Media.{push_media_frame}
use uvg_rtp.Media.InOrder.{feed, feed_in_order, in_order_results}
use uvg_rtp.Media.Send.{pieces, sent_wire, push_media_frame_fragments}
use uvg_rtp.Media.EndToEnd.{receive_all}
use uvg_rtp.Media.Delivery.{push_media_frame_delivered}
use uvg_rtp.Rtp.Context.{fill_header}

abbrev full_frame : RtpFrame
full_frame = record {
  header = record {
    version = 2;
    padding = 1;
    ext = 1;
    cc = 1;
    marker = 1;
    payload = 96;
    seq = 65535;
    timestamp = 1000000;
    ssrc = 4000000000;
  };
  csrc = 77 ∷ [];
  ext = some (record { type = 48862; len = 4; bytes = 1 ∷ 2 ∷ 3 ∷ 4 ∷ [] });
  padding_len = 4;
  payload_len = 3;
  payload = 10 ∷ 11 ∷ 12 ∷ [];
  dgram = [];
}

packet_handler-packet_bytes_example :
    packet_handler (packet_bytes full_frame)
    ≡ some (
      pkt_modified,
      live (record full_frame { csrc = 1291845632 ∷ []; dgram = packet_bytes full_frame }),
    )
packet_handler-packet_bytes_example = packet_handler-packet_bytes full_frame (record {
  header_fits = record {
    version_two = refl;
    padding_bit = omega arith;
    ext_bit = omega arith;
    cc_bits = omega arith;
    marker_bit = omega arith;
    payload_bits = omega arith;
    seq_fits = omega arith;
    timestamp_fits = omega arith;
    ssrc_fits = omega arith;
  };
  csrc_counted = refl;
  csrc_fits = (omega arith, tt);
  ext_fits = (refl, omega arith, refl, refl, omega arith);
  padding_fits = (refl, omega arith, omega arith);
  payload_counted = refl;
  payload_bounded = omega arith;
})

packet_handler_in_bounds_example :
    packet_handler (163 ∷ 96 ∷ 0 ∷ 1 ∷ 0 ∷ 0 ∷ 0 ∷ 0 ∷ 0 ∷ 0 ∷ 0 ∷ 9 ∷ 255 ∷ []) ≢ none
packet_handler_in_bounds_example =
    packet_handler_in_bounds 163 (96 ∷ 0 ∷ 1 ∷ 0 ∷ 0 ∷ 0 ∷ 0 ∷ 0 ∷ 0 ∷ 0 ∷ 9 ∷ 255 ∷ [])
      (omega arith) refl

packet_handler_overrun_example :
    packet_handler (144 ∷ 96 ∷ 0 ∷ 1 ∷ 0 ∷ 0 ∷ 0 ∷ 0 ∷ 0 ∷ 0 ∷ 0 ∷ 9 ∷ 255 ∷ []) ≡ none
packet_handler_overrun_example =
    packet_handler_overrun 144 (96 ∷ 0 ∷ 1 ∷ 0 ∷ 0 ∷ 0 ∷ 0 ∷ 0 ∷ 0 ∷ 0 ∷ 9 ∷ 255 ∷ []) refl refl
      (omega arith) (omega arith)

-- A sender with small packets whose sequence numbers are about to wrap.
abbrev small_sender : Rtp
small_sender = record {
  ssrc = 9;
  ts = 500;
  seq = 65534;
  fmt = opus;
  payload = 105;
  clock_rate = 48000;
  wc_start = 0;
  sent_pkts = 0;
  timestamp = 7777;
  sampling_ntp = 0;
  rtp_ts = 0;
  payload_size = 2;
  delay = 500;
}

abbrev at_noon : Env
at_noon = record { random_32 = 1; now_us = 2; ntp_now = 3 }

abbrev fragmenting : FrameQueue
fragmenting = record { active = none; rtp = small_sender; rce_flags = 256 }

abbrev takes_all : List (List ℕ) → Bool
takes_all w = true

push_media_frame_delivered_example :
    (q' : FrameQueue) × (wire : List (List ℕ)) × (frames : List RtpFrame) × (push_media_frame
        at_noon false takes_all
        (1 ∷ 2 ∷ 3 ∷ 4 ∷ 5 ∷ [])
        fragmenting
      ≡ some (ok, q', wire))
    × (receive_all wire ≡ some frames)
    × (2 ≤ length frames)
    × (feed 256 frames [] ≡ (in_order_results 5 (1 ∷ 2 ∷ 3 ∷ 4 ∷ 5 ∷ []) frames, []))
unfolding flag_set
push_media_frame_delivered_example =
    push_media_frame_delivered at_noon fragmenting takes_all 1 (2 ∷ 3 ∷ 4 ∷ 5 ∷ []) refl refl
      (omega arith) (omega arith) (omega arith) (omega arith) (omega arith) (omega arith) refl

push_media_frame_fragments_example :
    push_media_frame at_noon false takes_all (1 ∷ 2 ∷ 3 ∷ 4 ∷ 5 ∷ []) fragmenting
    ≡ some (
      ok,
      record fragmenting {
        rtp =
            advance_by
              (length (pieces fragmenting (1 ∷ 2 ∷ 3 ∷ 4 ∷ 5 ∷ [])))
              (fill_header at_noon false small_sender).0;
      },
      sent_wire at_noon (1 ∷ 2 ∷ 3 ∷ 4 ∷ 5 ∷ []) fragmenting,
    )
unfolding flag_set
push_media_frame_fragments_example =
    push_media_frame_fragments at_noon fragmenting takes_all 1 (2 ∷ 3 ∷ 4 ∷ 5 ∷ []) refl refl
      (omega arith) (omega arith) (omega arith) refl

abbrev fragment : ℕ → ℕ → ℕ → RtpFrame
fragment seq marker octet = record full_frame {
  header = record full_frame.header { seq = seq; marker = marker; timestamp = 5 };
  payload_len = 1;
  payload = octet ∷ [];
}

feed_in_order_example : feed 256 (fragment 65535 0 1 ∷ fragment 0 0 2 ∷ fragment 1 1 3 ∷ []) [] ≡ (
  in_order_results 3 (1 ∷ 2 ∷ 3 ∷ []) (fragment 65535 0 1 ∷ fragment 0 0 2 ∷ fragment 1 1 3 ∷ []),
  [],
)
unfolding flag_set lookup
feed_in_order_example =
    feed_in_order 5 65535 256 (fragment 65535 0 1) (fragment 0 0 2) (fragment 1 1 3 ∷ []) [] refl
      (
        record { same_ts = refl; in_sequence = refl; marked = refl; counted = refl },
        (
          record { same_ts = refl; in_sequence = refl; marked = refl; counted = refl },
          record { same_ts = refl; in_sequence = refl; marked = refl; counted = refl },
        ),
      )
      (omega arith) (omega arith) (omega arith) refl
