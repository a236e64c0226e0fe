-- ===== src/Tests/Fragments.antt =====
-- The theorems on H.26x fragments, at concrete inputs, and runs of packet_handler().
use uvg_rtp.Prelude.{
  ◌>>=◌, take_exact, sub64, flag_set, lookup, insert, erase, ℕ, ◌≡◌, refl, true, false, Option,
  none, some, List, [], ◌∷◌, arith,
}
use uvg_rtp.Util.{RtpError, ok, pkt_ready}
use uvg_rtp.Frame.{RtpFrame, alloc_rtp_frame, FramePtr, freed, live}
use uvg_rtp.H26x.Headers.{
  get_payload_header_size, get_nal_header_size, get_fu_header_size, by_fu_bits, get_fragment_type,
  get_frame_nal_type, get_nal_header_from_fu_headers, h265,
}
use uvg_rtp.H26x.Aggregation.{start_code, nalu_frame}
use uvg_rtp.H26x.Reassembly.{
  H26xState, frame_getter, member, set_insert, set_erase, set_erase_all, expire_seen, seen_key,
  is_duplicate_frame, next_seq_num, next_seq_from, next_seq, free_fragment, no_info, info_of,
  new_access_unit, free_fragments, limit_dropped, drop_access_unit, drop_old_units,
  garbage_collect_lost_frames,
}
use uvg_rtp.H26x.Receive.{
  copy_fragments, reconstruction, nal_size, must_discard, found_key, join_nal, join_loop,
  start_fragment, add_fragment, after_join, join_from, receive_fragment, prepend_start_code,
  queue_frames, handle_by_fragment_type, packet_handler,
}
use uvg_rtp.H26x.Joins.{PieceOf, Pieces, free_range, reconstruction_lem}
use uvg_rtp.H26x.Duplicates.{Window, Tracking, is_duplicate_frame-is_duplicate_frame}

abbrev pub empty : H26xState
empty = record {
  queued = [];
  access_units = [];
  seen_order = [];
  seen_packets = [];
  fragments = [];
  dropped_ts = [];
  dropped_in_order = [];
  discard_until_key_frame = false;
  last_garbage_collection = 0;
}

-- An H.265 fragment with a FU header and one octet of data.
unfoldable fragment : ℕ → ℕ → ℕ → RtpFrame
fragment seq fu octet = record alloc_rtp_frame {
  header = record alloc_rtp_frame.header { seq = seq; timestamp = 7 };
  payload_len = 4;
  payload = 98 ∷ (1 ∷ (fu ∷ (octet ∷ [])));
}

unfoldable run : List RtpFrame → H26xState → Option (List (RtpError × FramePtr) × H26xState)
run [] s = some ([], s)
run (f ∷ fs) s = do
  (ret, out, s') ← packet_handler h265 0 50 100 f s
  (rest, last) ← run fs s'
  some ((ret, out) ∷ rest, last)

abbrev results :
    Option (List (RtpError × FramePtr) × H26xState) → Option (List (RtpError × FramePtr))
results none = none
results (some (r, s)) = some r

abbrev in_order : Option (List (RtpError × FramePtr))
in_order = results (run (fragment 1 129 10 ∷ (fragment 2 1 11 ∷ (fragment 3 65 12 ∷ []))) empty)

abbrev late_second : Option (List (RtpError × FramePtr))
late_second = results (
    run
      (fragment 1 129 10
        ∷ (fragment 3 65 12 ∷ (fragment 4 129 20 ∷ (fragment 5 65 21 ∷ (fragment 2 1 11 ∷ [])))))
      empty)

-- The third of three fragments completes the NAL unit.
in_order_joined :
    in_order
    ≡ some (
        (ok, freed)
        ∷ ((ok, freed)
            ∷ ((
              pkt_ready,
              live (record (fragment 3 65 12) {
                payload_len = 9;
                payload = 0 ∷ 0 ∷ 0 ∷ 1 ∷ 2 ∷ 1 ∷ 10 ∷ 11 ∷ 12 ∷ [];
              }),
            )
                ∷ [])))
unfolding fragment run frame_getter member set_insert set_erase set_erase_all expire_seen seen_key
    is_duplicate_frame next_seq_num next_seq_from next_seq free_fragment no_info info_of
    new_access_unit free_fragments limit_dropped drop_access_unit drop_old_units
    garbage_collect_lost_frames copy_fragments reconstruction nal_size must_discard found_key
    join_nal join_loop start_fragment add_fragment after_join join_from receive_fragment
    prepend_start_code queue_frames handle_by_fragment_type packet_handler get_fragment_type
    by_fu_bits get_frame_nal_type get_payload_header_size get_nal_header_size get_fu_header_size
    get_nal_header_from_fu_headers start_code flag_set lookup insert erase take_exact sub64
    alloc_rtp_frame
in_order_joined = refl

-- Two NAL units of an access unit, of which the first's second fragment comes last: a fragment that was
-- freed is read.
late_second_faults : late_second ≡ none
unfolding fragment run frame_getter member set_insert set_erase set_erase_all expire_seen seen_key
    is_duplicate_frame next_seq_num next_seq_from next_seq free_fragment no_info info_of
    new_access_unit free_fragments limit_dropped drop_access_unit drop_old_units
    garbage_collect_lost_frames copy_fragments reconstruction nal_size must_discard found_key
    join_nal join_loop start_fragment add_fragment after_join join_from receive_fragment
    prepend_start_code queue_frames handle_by_fragment_type packet_handler get_fragment_type
    by_fu_bits get_frame_nal_type get_payload_header_size get_nal_header_size get_fu_header_size
    get_nal_header_from_fu_headers start_code flag_set lookup insert erase take_exact sub64
    alloc_rtp_frame
late_second_faults = refl

is_duplicate_frame_example :
    let s' = (is_duplicate_frame 0 7 1 empty).1 in
    Tracking s' × ((is_duplicate_frame 100 7 1 s').0 ≡ true)
unfolding Window is_duplicate_frame member expire_seen
is_duplicate_frame_example =
    is_duplicate_frame-is_duplicate_frame 0 100 7 1 empty tt refl (omega arith) (omega arith)

-- Two fragments, between which the sequence number wraps.
abbrev two_fragments : H26xState
two_fragments = record empty {
  fragments = (65535, fragment 65535 129 10) ∷ ((0, fragment 0 65 11) ∷ []);
}

fragment-PieceOf : (seq fu octet : ℕ) → PieceOf 3 (octet ∷ []) (fragment seq fu octet)
unfolding fragment
fragment-PieceOf seq fu octet = record {
  headers = 98 ∷ (1 ∷ (fu ∷ []));
  headers_size = refl;
  split = refl;
  counted = refl;
  small = omega arith;
}

two_fragments-Pieces : Pieces 3 65535 ((10 ∷ []) ∷ ((11 ∷ []) ∷ [])) two_fragments.fragments
unfolding Pieces lookup
two_fragments-Pieces = (
  (fragment 65535 129 10, refl, fragment-PieceOf 65535 129 10),
  ((fragment 0 65 11, refl, fragment-PieceOf 0 65 11), tt),
)

reconstruction_example :
    reconstruction h265 0 (fragment 0 65 11) 65535 0 3 two_fragments
    ≡ some (
      some (nalu_frame h265 true (fragment 0 65 11).header (2 ∷ 1 ∷ 10 ∷ 11 ∷ [])),
      free_range 2 65535 two_fragments,
    )
unfolding fragment flag_set get_nal_header_from_fu_headers
reconstruction_example =
    reconstruction_lem h265 0 3 65535 (fragment 0 65 11) (2 ∷ 1 ∷ []) (10 ∷ []) ((11 ∷ []) ∷ [])
      two_fragments (omega arith) (omega arith) two_fragments-Pieces refl
