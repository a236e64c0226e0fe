-- ===== src/H26x/Receive.antt =====
-- src/formats/h26x.cc, packet_handler(): a packet that is not a duplicate is a NAL unit, an aggregation
-- packet or a fragment.
use uvg_rtp.Prelude.{
  ◌==◌, if◌then◌else◌, length, take, drop, ◌>>=◌, take_exact, sub64, flag_set, lookup, insert, ℕ,
  zero, suc, ◌+◌, ◌-◌, ◌%◌, ◌⊎◌, inl, inr, Bool, true, false, not, ◌&&◌, ◌||◌, Option, none, some,
  List, [], ◌∷◌, ◌++◌,
}
use uvg_rtp.Util.{
  RtpError, ok, generic_error, pkt_ready, multiple_pkts_ready, rce_no_h26x_prepend_sc,
  rce_h26x_dependency_enforcement,
}
use uvg_rtp.Frame.{RtpFrame, FramePtr, null, freed, live}
use uvg_rtp.H26x.Headers.{
  Codec, FragType, NalType, get_payload_header_size, get_fu_header_size, get_fragment_type,
  get_frame_nal_type, get_nal_header_from_fu_headers, ft_invalid, ft_not_frag, ft_start, ft_middle,
  ft_end, ft_aggr, ft_stap_b, nt_intra, nt_inter, nt_other,
}
use uvg_rtp.H26x.Aggregation.{
  find_nalus, start_code, nalu_frame, queue_nalus, handle_aggregation_packet,
}
use uvg_rtp.H26x.Reassembly.{
  AccessUnit, H26xState, member, set_insert, set_erase_all, is_duplicate_frame, next_seq_num,
  next_seq, free_fragment, info_of, new_access_unit, drop_access_unit, garbage_collect_lost_frames,
}

-- The payloads of the fragments from `seq` on, as many as the number says, without their headers.
-- `none` inside is a fragment that is missing; those before it have been freed.
unfoldable pub copy_fragments : ℕ → ℕ → ℕ → H26xState → Option (Option (List ℕ) × H26xState)
copy_fragments zero seq skip s = some (some [], s)
copy_fragments (suc n) seq skip s = elim (lookup seq s.fragments) [
  | none ↦ some (none, s)
  | some f ↦ (do
    piece ← take_exact (sub64 f.payload_len skip) (drop skip f.payload)
    rest ← copy_fragments n ((seq + 1) % 65536) skip (free_fragment seq s)
    some (elim (rest.0) [ none ↦ none | some more ↦ some (piece ++ more) ], rest.1))
]

-- reconstruction(): the headers of the last packet, in `frame`, make the NAL unit's header. The loop ends
-- at the number after `e_seq`, and runs no round when that is `s_seq`.
unfoldable pub reconstruction :
    Codec → ℕ → RtpFrame → ℕ → ℕ → ℕ → H26xState → Option (Option RtpFrame × H26xState)
reconstruction c rce_flags frame s_seq e_seq skip s = do
  header ← get_nal_header_from_fu_headers c frame.payload
  copied ← copy_fragments ((next_seq_num e_seq + 65536 - s_seq) % 65536) s_seq skip s
  some (
    elim (copied.0) [
      | none ↦ none
      | some bytes ↦ some (
          nalu_frame c (not (flag_set rce_flags rce_no_h26x_prepend_sc)) frame.header
            (header ++ bytes))
    ],
    copied.1,
  )

-- The size of the NAL unit; a fragment that is missing is a null pointer that is read.
unfoldable pub nal_size : List ℕ → ℕ → H26xState → Option ℕ
nal_size [] skip s = some 0
nal_size (seq ∷ seqs) skip s = do
  f ← lookup seq s.fragments
  rest ← nal_size seqs skip s
  some (sub64 f.payload_len skip + rest)

-- The state of the loop over the incomplete fragments.
pub record Joining : Type 0 where
  pub state : H26xState
  pub seqs : List ℕ
  pub joined : Option RtpFrame
  pub complete : Bool

-- What the frames that refer to a lost one lead to: the unit is dropped, or the loop goes on.
unfoldable pub must_discard : Bool → ℕ → NalType → Bool
must_discard until_key rce_flags nt_inter =
    until_key && flag_set rce_flags rce_h26x_dependency_enforcement
must_discard until_key rce_flags nt_intra = false
must_discard until_key rce_flags nt_other = false

unfoldable pub found_key : ℕ → NalType → H26xState → H26xState
found_key rce_flags nt_intra s =
    if s.discard_until_key_frame && flag_set rce_flags rce_h26x_dependency_enforcement
    then record s { discard_until_key_frame = false }
    else s
found_key rce_flags nt_inter s = s
found_key rce_flags nt_other s = s

-- An end fragment was reached: `inl` is the state when the unit was dropped.
unfoldable pub join_nal :
    Codec → ℕ → RtpFrame → NalType → ℕ → ℕ → ℕ → Joining → Option (H26xState ⊎ Joining)
join_nal c rce_flags frame nal_type start current skip j = do
  size ← nal_size j.seqs skip j.state
  if must_discard j.state.discard_until_key_frame rce_flags nal_type
      then (do s ← drop_access_unit frame.header.timestamp j.state; some (inl s))
      else (do
        made ←
            reconstruction c rce_flags frame start current skip
              (found_key rce_flags nal_type j.state)
        some (
            inr (record j {
              state = made.1;
              joined = elim (made.0) [ none ↦ j.joined | some f ↦ some f ];
              complete = true;
            })))

-- The loop: `set` are the incomplete fragments and `au` the unit's record. It goes through the set once.
unfoldable pub join_loop :
    Codec
    → ℕ
    → RtpFrame
    → NalType
    → ℕ
    → ℕ
    → AccessUnit
    → ℕ
    → ℕ
    → ℕ
    → Joining
    → Option (H26xState ⊎ Joining)
join_loop c rce_flags frame nal_type start skip au zero next current j =
    if current == start then some (inr j) else none
join_loop c rce_flags frame nal_type start skip au (suc fuel) next current j =
    let rest = join_loop c rce_flags frame nal_type start skip au fuel in
    let next' = next_seq_num next in
    let current' = next_seq current au.incomplete_packet_seqs in
    let j' : Joining = record j { seqs = set_insert current j.seqs } in
    if (current == start) || not (current == next)
    then some (inr j)
    else if (info_of current au).end
    then (join_nal c rce_flags frame nal_type start current skip j'
        >>= (λ r. elim r [ inl s ↦ some (inl s) | inr k ↦ rest next' current' k ]))
    else rest next' current' j'

unfoldable pub start_fragment : AccessUnit → List ℕ → Option ℕ
start_fragment au [] = none
start_fragment au (seq ∷ seqs) = if (info_of seq au).start then some seq else start_fragment au seqs

-- The new fragment in the unit's record and in the table.
unfoldable pub add_fragment : FragType → RtpFrame → ℕ → AccessUnit → AccessUnit
add_fragment type frame skip au =
    let seq = frame.header.seq in
    record au {
      received_packet_seqs = set_insert seq au.received_packet_seqs;
      incomplete_packet_seqs = set_insert seq au.incomplete_packet_seqs;
      total_size = au.total_size + sub64 frame.payload_len skip;
      fragments_info =
          insert seq
            (record {
              start = elim type [ ft_start ↦ true | _ ↦ false ];
              end = elim type [ ft_end ↦ true | _ ↦ false ];
              reconstructed = false;
            })
            au.fragments_info;
    }

-- After the loop: the fragments of a NAL unit that was joined are no longer incomplete.
unfoldable pub after_join :
    ℕ → ℕ → ℕ → AccessUnit → H26xState ⊎ Joining → Option (RtpError × FramePtr × H26xState)
after_join now timeout ts au (inl s) = some (generic_error, freed, s)
after_join now timeout ts au (inr j) = do
  let left =
      if j.complete
      then set_erase_all j.seqs au.incomplete_packet_seqs
      else au.incomplete_packet_seqs
  s ← garbage_collect_lost_frames now timeout (record j.state {
    access_units = insert ts (record au { incomplete_packet_seqs = left }) j.state.access_units;
  })
  some (elim j.joined [ none ↦ (ok, freed, s) | some f ↦ (pkt_ready, live f, s) ])

-- From the first fragment that begins a NAL unit on, if there is one.
unfoldable pub join_from :
    Codec
    → ℕ
    → ℕ
    → ℕ
    → RtpFrame
    → NalType
    → ℕ
    → AccessUnit
    → H26xState
    → Option ℕ
    → Option (RtpError × FramePtr × H26xState)
join_from c rce_flags now timeout frame nal_type skip au s none = some (ok, freed, s)
join_from c rce_flags now timeout frame nal_type skip au s (some start) =
    join_loop c rce_flags frame nal_type start skip au (length au.incomplete_packet_seqs)
      (next_seq_num start) (next_seq start au.incomplete_packet_seqs)
      (record { state = s; seqs = start ∷ []; joined = none; complete = false })
    >>= after_join now timeout frame.header.timestamp au

-- A fragment. `freed` stands for the frame that the table keeps, or that was deallocated.
unfoldable pub receive_fragment :
    Codec → ℕ → ℕ → ℕ → FragType → RtpFrame → H26xState → Option (RtpError × FramePtr × H26xState)
receive_fragment c rce_flags now timeout type frame s = do
  nal_type ← get_frame_nal_type c frame.payload
  let ts = frame.header.timestamp
  let seq = frame.header.seq
  let skip = get_payload_header_size c + get_fu_header_size c
  let old : AccessUnit = elim (lookup ts s.access_units) [
    | none ↦ new_access_unit now
    | some au ↦ au
  ]
  if member seq old.received_packet_seqs
      then some (generic_error, null, s)
      else (let au = add_fragment type frame skip old in
          let s' : H26xState = record s {
            access_units = insert ts au s.access_units;
            fragments = insert seq frame s.fragments;
          } in
          join_from c rce_flags now timeout frame nal_type skip au s'
            (start_fragment au au.incomplete_packet_seqs))

-- A NAL unit with a start code, if the flags want one.
unfoldable pub prepend_start_code : Codec → ℕ → RtpFrame → RtpFrame
prepend_start_code c rce_flags frame =
    if flag_set rce_flags rce_no_h26x_prepend_sc then frame else record frame {
      payload = start_code c ++ take frame.payload_len frame.payload;
      payload_len = frame.payload_len + length (start_code c);
    }

unfoldable pub queue_frames : H26xState → RtpError × List RtpFrame → RtpError × FramePtr × H26xState
queue_frames s (ret, frames) = (ret, null, record s { queued = s.queued ++ frames })

unfoldable pub handle_by_fragment_type :
    Codec → ℕ → ℕ → ℕ → RtpFrame → H26xState → FragType → Option (RtpError × FramePtr × H26xState)
handle_by_fragment_type c rce_flags now timeout frame s ft_aggr = do
  done ← handle_aggregation_packet c rce_flags frame
  some (queue_frames s done)
handle_by_fragment_type c rce_flags now timeout frame s ft_stap_b = do
  found ←
      find_nalus (suc frame.payload_len) frame.payload frame.payload_len
        (get_payload_header_size c + 2) 0
  frames ← queue_nalus c (not (flag_set rce_flags rce_no_h26x_prepend_sc)) frame.header found.1
  some (queue_frames s (elim (found.0) [ ok ↦ (multiple_pkts_ready, frames) | ret ↦ (ret, []) ]))
handle_by_fragment_type c rce_flags now timeout frame s ft_not_frag =
    some (pkt_ready, live (prepend_start_code c rce_flags frame), s)
handle_by_fragment_type c rce_flags now timeout frame s ft_invalid = some (generic_error, null, s)
handle_by_fragment_type c rce_flags now timeout frame s ft_start =
    receive_fragment c rce_flags now timeout ft_start frame s
handle_by_fragment_type c rce_flags now timeout frame s ft_middle =
    receive_fragment c rce_flags now timeout ft_middle frame s
handle_by_fragment_type c rce_flags now timeout frame s ft_end =
    receive_fragment c rce_flags now timeout ft_end frame s

-- `timeout` is the delay that the stream allows its packets.
unfoldable pub packet_handler :
    Codec → ℕ → ℕ → ℕ → RtpFrame → H26xState → Option (RtpError × FramePtr × H26xState)
packet_handler c rce_flags now timeout frame s =
    let checked = is_duplicate_frame now frame.header.timestamp frame.header.seq s in
    if checked.0 then some (generic_error, null, checked.1) else (do
      type ← get_fragment_type c frame.payload
      elim (lookup frame.header.timestamp checked.1.dropped_ts) [
        | some t ↦ some (generic_error, freed, checked.1)
        | none ↦ handle_by_fragment_type c rce_flags now timeout frame checked.1 type
      ])
