-- ===== src/Tests/StartCodes.antt =====
-- The search for start codes and the sending of NAL units, at concrete frames.
use uvg_rtp.Prelude.{
  length, drop, sub64, flag_set, ℕ, ◌≡◌, refl, Bool, true, false, none, some, List, [], ◌∷◌, arith,
}
use uvg_rtp.Util.{invalid_value}
use uvg_rtp.Util
use uvg_rtp.Rtp.Context.{Env, fill_header}
use uvg_rtp.FrameQueue.{FrameQueue, init_transaction}
use uvg_rtp.H26x.Headers.{get_payload_header_size, h264, h265, h266}
use uvg_rtp.H26x.ZeroBytes.{AllBytes, haszero32, haszero64}
use uvg_rtp.H26x.StartCode.{get_start_code_range, find_h26x_start_code, first_start_code}
use uvg_rtp.H26x.Search.{whole_dwords}
use uvg_rtp.H26x.SearchByte.{Finds}
use uvg_rtp.H26x.FindsFirst.{find_h26x_start_code_dwords, find_h26x_start_code_octets}
use uvg_rtp.H26x.Push.{NalInfo, scl, push_nal, push_nals, chosen, is_atlas, push_media_frame}
use uvg_rtp.H26x.Tiles.{units, end_before, Tiles, scl-units, scl-Tiles}
use uvg_rtp.H26x.Lost.{started, push_media_frame_lone}

-- Three NAL units, of 4, 12 and 4 octets.
abbrev three_units : List ℕ
three_units =
    0 ∷ 0 ∷ 0 ∷ 1 ∷ 70 ∷ 1 ∷ 16 ∷ 7 ∷ 0 ∷ 0 ∷ 0 ∷ 1 ∷ 38 ∷ 1 ∷ 9 ∷ 8 ∷ 7 ∷ 6 ∷ 5 ∷ 4 ∷ 3 ∷ 2 ∷ 9 ∷ 9
    ∷ 0 ∷ 0 ∷ 0 ∷ 1 ∷ 80 ∷ 1 ∷ 5 ∷ 7 ∷ []

-- The last three octets are missed by the search for H.265.
abbrev late_code : List ℕ
late_code = 9 ∷ 9 ∷ 9 ∷ 9 ∷ 9 ∷ 9 ∷ 0 ∷ 0 ∷ 1 ∷ 74 ∷ 1 ∷ []

late_code_missed : find_h26x_start_code h265 late_code 0 ≡ none
unfolding find_h26x_start_code haszero32 haszero64 get_start_code_range
late_code_missed = refl

late_code_found : find_h26x_start_code h264 late_code 0 ≡ some (9, 3)
unfolding find_h26x_start_code haszero32 haszero64 get_start_code_range
late_code_found = refl

three_units-AllBytes : AllBytes three_units
three_units-AllBytes = omega arith

find_h26x_start_code_dwords_example :
    find_h26x_start_code h265 three_units 4 ≡ first_start_code 4 (whole_dwords (drop 4 three_units))
unfolding get_start_code_range
find_h26x_start_code_dwords_example =
    find_h26x_start_code_dwords h265 three_units 4 refl three_units-AllBytes

find_h26x_start_code_octets_example :
    Finds
      (length three_units)
      (find_h26x_start_code h264 three_units 4)
      (first_start_code 4 (drop 4 three_units))
find_h26x_start_code_octets_example = find_h26x_start_code_octets three_units 4 three_units-AllBytes

scl-units_example :
    units three_units (scl h265 three_units 12).0
    ≡ drop (end_before three_units (scl h265 three_units 12).0) three_units
scl-units_example = scl-units h265 three_units 12 three_units-AllBytes (omega arith)

scl-Tiles_example : Tiles three_units (scl h266 three_units 12).0
scl-Tiles_example = scl-Tiles h266 three_units 12 three_units-AllBytes (omega arith)

abbrev clock : Env
clock = record { random_32 = 7; now_us = 1000000; ntp_now = 0 }

abbrev small_packets : FrameQueue
small_packets = record {
  active = none;
  rtp = record {
    ssrc = 5;
    ts = 9;
    seq = 100;
    fmt = Util.h265;
    payload = 96;
    clock_rate = 90000;
    wc_start = 0;
    sent_pkts = 0;
    timestamp = 3000;
    sampling_ntp = 0;
    rtp_ts = 0;
    payload_size = 14;
    delay = 500;
  };
  rce_flags = 0;
}

abbrev unit_at : ℕ → ℕ → Bool → NalInfo
unit_at offset size aggregate = record {
  offset = offset;
  prefix_len = 4;
  size = size;
  aggregate = aggregate;
  was_aggregated = false;
}

three_units_listed :
    scl h265 three_units (started clock three_units small_packets).rtp.payload_size
    ≡ (unit_at 4 4 true ∷ unit_at 12 12 false ∷ unit_at 28 4 true ∷ [], true)
unfolding scl find_h26x_start_code haszero32 haszero64 get_start_code_range sub64 init_transaction
    fill_header get_payload_header_size
three_units_listed = refl

abbrev takes_all : List (List ℕ) → Bool
takes_all packets = true

push_media_frame_lone_example :
    push_media_frame h265 clock false takes_all three_units 0 small_packets
    ≡ push_nals
        (push_nal h265 clock false takes_all
          (started clock three_units small_packets).rtp.payload_size
          three_units)
        (chosen false true)
        invalid_value
        (unit_at 12 12 false ∷ unit_at 28 4 true ∷ [])
        (record (started clock three_units small_packets) { active = none })
unfolding flag_set is_atlas init_transaction fill_header
push_media_frame_lone_example =
    push_media_frame_lone h265 clock false takes_all 0 (drop 1 three_units) 0 small_packets
      (unit_at 4 4 true) (unit_at 12 12 false) (unit_at 28 4 true ∷ []) three_units-AllBytes
      (omega arith) refl refl refl three_units_listed refl refl
