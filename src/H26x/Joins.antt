-- ===== src/H26x/Joins.antt =====
-- src/formats/h26x.cc, reconstruction(): consecutive fragments make their NAL unit.
use uvg_rtp.Prelude.{
  length, drop, take_exact, take_exact-append, drop-append, sub64, flag_set, lookup, erase,
  lookup-erase, ℕ, zero, suc, ◌+◌, ◌-◌, ◌%◌, ◌^◌, ◌≤◌, ◌<◌, ◌≡◌, refl, sym, ap, ◌∙◌, ◌≢◌, not, some,
  List, [], ◌∷◌, ◌++◌, append-nil, arith,
}
use uvg_rtp.Util.{rce_no_h26x_prepend_sc}
use uvg_rtp.Frame.{RtpFrame}
use uvg_rtp.FrameQueue.{concat}
use uvg_rtp.H26x.Headers.{Codec, get_nal_header_from_fu_headers}
use uvg_rtp.H26x.Aggregation.{nalu_frame}
use uvg_rtp.H26x.Reassembly.{H26xState, free_fragment, next_seq_num}
use uvg_rtp.H26x.Receive.{copy_fragments, reconstruction}

-- A frame whose payload is a piece of a NAL unit behind headers of this length.
pub record PieceOf (skip : ℕ) (piece : List ℕ) (f : RtpFrame) : Type 0 where
  pub headers : List ℕ
  pub headers_size : length headers ≡ skip
  pub split : f.payload ≡ headers ++ piece
  pub counted : f.payload_len ≡ skip + length piece
  pub small : skip + length piece < 2 ^ 64

-- The table has the pieces under consecutive sequence numbers, with their wrap.
unfoldable pub Pieces : ℕ → ℕ → List (List ℕ) → List (ℕ × RtpFrame) → Type 0
Pieces skip seq [] table = Unit {0}
Pieces skip seq (piece ∷ pieces) table =
    ((f : RtpFrame) × (lookup seq table ≡ some f) × PieceOf skip piece f)
    × Pieces skip ((seq + 1) % 65536) pieces table

Pieces-erase :
    (skip seq k : ℕ) (pieces : List (List ℕ)) (table : List (ℕ × RtpFrame))
    → seq < 65536
    → ((j : ℕ) → j < length pieces → k ≢ (seq + j) % 65536)
    → Pieces skip seq pieces table
    → Pieces skip seq pieces (erase k table)
unfolding Pieces
Pieces-erase skip seq k [] table u16 other p = p
Pieces-erase skip seq k (piece ∷ pieces) table u16 other ((f, here, is), p) =
    let apart : k ≢ seq = λ e. other 0 (omega arith) (e ∙ omega arith) in
    let there : lookup seq (erase k table) ≡ some f =
      lookup-erase k seq table ∙ ground (arith, here, apart) in
    (
      (f, there, is),
      Pieces-erase skip ((seq + 1) % 65536) k pieces table (omega arith)
          (λ j l e. other (suc j) (omega arith) (e ∙ omega arith)) p,
    )

unfoldable pub free_range : ℕ → ℕ → H26xState → H26xState
free_range zero seq s = s
free_range (suc n) seq s = free_range n ((seq + 1) % 65536) (free_fragment seq s)

piece_copied :
    (skip : ℕ) (piece : List ℕ) (f : RtpFrame)
    → PieceOf skip piece f
    → take_exact (sub64 f.payload_len skip) (drop skip f.payload) ≡ some piece
unfolding sub64
piece_copied skip piece f p =
    let count : (f.payload_len + 2 ^ 64 - skip) % 2 ^ 64 ≡ length piece =
      let c = p.counted in let small = p.small in omega arith in
    let from : drop skip f.payload ≡ piece =
      ap (drop skip) p.split
      ∙ ap (λ (n : ℕ). drop n (p.headers ++ piece)) (sym p.headers_size)
      ∙ drop-append p.headers piece in
    rw (count, from)
      (ap (take_exact (length piece)) (sym (append-nil piece)) ∙ take_exact-append piece [])

Pieces-free :
    (skip seq : ℕ) (pieces : List (List ℕ)) (s : H26xState)
    → seq < 65536
    → suc (length pieces) ≤ 65536
    → Pieces skip ((seq + 1) % 65536) pieces s.fragments
    → Pieces skip ((seq + 1) % 65536) pieces (free_fragment seq s).fragments
unfolding free_fragment
Pieces-free skip seq pieces s u16 few p =
    Pieces-erase skip ((seq + 1) % 65536) seq pieces s.fragments (omega arith)
      (λ j l e. omega (arith, e, l, few, u16)) p

copy_step :
    (skip seq n : ℕ) (s : H26xState) (f : RtpFrame) (piece more : List ℕ) (s' : H26xState)
    → lookup seq s.fragments ≡ some f
    → take_exact (sub64 f.payload_len skip) (drop skip f.payload) ≡ some piece
    → copy_fragments n ((seq + 1) % 65536) skip (free_fragment seq s) ≡ some (some more, s')
    → copy_fragments (suc n) seq skip s ≡ some (some (piece ++ more), s')
unfolding copy_fragments
copy_step skip seq n s f piece more s' here copied rest = ground (arith, here, copied, rest)

copy_fragments_lem :
    (skip seq : ℕ) (pieces : List (List ℕ)) (s : H26xState)
    → seq < 65536
    → length pieces ≤ 65536
    → Pieces skip seq pieces s.fragments
    → copy_fragments (length pieces) seq skip s
      ≡ some (some (concat pieces), free_range (length pieces) seq s)
unfolding copy_fragments free_range Pieces
copy_fragments_lem skip seq [] s u16 few p = refl
copy_fragments_lem skip seq (piece ∷ pieces) s u16 few ((f, here, is), p) =
    let rest =
      copy_fragments_lem skip ((seq + 1) % 65536) pieces (free_fragment seq s) (omega arith)
        (omega arith) (Pieces-free skip seq pieces s u16 few p) in
    let copied = piece_copied skip piece f is in
    copy_step skip seq (length pieces) s f piece (concat pieces)
      (free_range (length pieces) ((seq + 1) % 65536) (free_fragment seq s)) here copied rest

-- The sequence number of the last of n + 1 packets.
abbrev pub last_seq : ℕ → ℕ → ℕ
last_seq seq n = (seq + n) % 65536

next_seq_num_lem :
    (seq n : ℕ)
    → seq < 65536
    → n < 65535
    → (next_seq_num (last_seq seq n) + 65536 - seq) % 65536 ≡ suc n
unfolding next_seq_num
next_seq_num_lem seq n u16 few = ground arith

-- Fragments under consecutive sequence numbers, with their wrap, from `seq` on, 65535 at most, each with
-- a piece of a NAL unit behind headers of `skip` octets; and any packet of the unit, from whose headers
-- the NAL unit's header is read: reconstruction() makes a frame of the NAL unit's header and all pieces,
-- in order, behind a start code unless the flags say that there is none, and frees the fragments.
pub reconstruction_lem :
    (c : Codec) (rce_flags skip seq : ℕ) (frame : RtpFrame) (header piece : List ℕ)
    (pieces : List (List ℕ)) (s : H26xState)
    → seq < 65536
    → length pieces < 65535
    → Pieces skip seq (piece ∷ pieces) s.fragments
    → get_nal_header_from_fu_headers c frame.payload ≡ some header
    → reconstruction c rce_flags frame seq (last_seq seq (length pieces)) skip s
      ≡ some (
        some (
            nalu_frame c
              (not (flag_set rce_flags rce_no_h26x_prepend_sc))
              frame.header
              (header ++ concat (piece ∷ pieces))),
        free_range (length (piece ∷ pieces)) seq s,
      )
unfolding reconstruction
reconstruction_lem c rce_flags skip seq frame header piece pieces s u16 few p read =
    let n : (next_seq_num (last_seq seq (length pieces)) + 65536 - seq) % 65536
        ≡ suc (length pieces) =
      next_seq_num_lem seq (length pieces) u16 few in
    let copied = copy_fragments_lem skip seq (piece ∷ pieces) s u16 (omega arith) p in
    rw (read, n, copied) refl
