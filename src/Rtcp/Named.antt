-- ===== src/Rtcp/Named.antt =====
-- src/rtcp.cc and src/rtcp_packets.cc: the items that send_sdes_packet() has set, and the length of the
-- SDES packet with them.
use uvg_rtp.Prelude.{
  ltb, ◌==◌, if◌then◌else◌, Bool-cases, length, length-append, take, replicate, length-take,
  length-replicate, put16, put32, take_exact_total, ℕ, suc, ◌+◌, ◌-◌, ◌*◌, ◌/◌, ◌%◌, ◌^◌, ◌≤◌, ◌<◌,
  bit_or, ◌≡◌, refl, sym, ap, ◌∙◌, inl, inr, Bool, true, false, ◌||◌, some, List, [], ◌∷◌, ◌++◌,
  arith,
}
use uvg_rtp.Rtcp.Packets.{
  frame_type_number, SdesItem, SdesChunk, item_lengths, get_sdes_packet_size, construct_rtcp_header,
  construct_ssrc, construct_items, construct_sdes_chunk, sdes,
}
use uvg_rtp.Rtcp.Report.{Reporter, write_sdes}
use uvg_rtp.Prelude.{put32}
use uvg_rtp.Rtcp.Sdes.{find_invalid, is_ignored, add_items, set_sdes_items}

-- The item has as much data as its length says.
abbrev pub Readable : SdesItem → Type 0
Readable item = (bytes : List ℕ) × (item.bytes ≡ some bytes) × (item.len ≤ length bytes)

abbrev pub AllReadable : List SdesItem → Type 0
AllReadable [] = Unit {0}
AllReadable (item ∷ items) = Readable item × AllReadable items

unfoldable pub any_cname : List SdesItem → Bool
any_cname [] = false
any_cname (item ∷ items) = item.type == 1 || any_cname items

pub or_assoc : (a b c : Bool) → ((a || b) || c) ≡ (a || (b || c))
or_assoc true b c = refl
or_assoc false b c = refl

pub or_false : (a : Bool) → (a || false) ≡ a
or_false true = refl
or_false false = refl

-- The octets of the items.
abbrev pub octets_of : List SdesItem → ℕ
octets_of items = length items * 2 + item_lengths items

length-item :
    (frame bytes : List ℕ) (item : SdesItem)
    → item.len ≤ length bytes
    → length (frame ++ (item.type ∷ (item.len ∷ take item.len bytes)))
      ≡ length frame + (2 + item.len)
length-item frame bytes item enough = omega (
  arith,
  length-append frame (item.type ∷ (item.len ∷ take item.len bytes)),
  length-take item.len bytes,
)

construct_items-any_cname :
    (items : List SdesItem) (frame : List ℕ) (seen : Bool)
    → AllReadable items
    → (written : List ℕ) × (construct_items frame seen items
        ≡ some (seen || any_cname items, written))
      × (length written ≡ length frame + octets_of items)
unfolding construct_items any_cname item_lengths
construct_items-any_cname [] frame seen readable =
    (frame, ap (λ (b : Bool). some (b, frame)) (sym (or_false seen)), omega arith)
construct_items-any_cname (item ∷ items) frame seen ((bytes, has, enough), others) =
    let next = frame ++ (item.type ∷ (item.len ∷ take item.len bytes)) in
    let (written, e, total) =
      construct_items-any_cname items next (seen || item.type == 1) others in
    (
      written,
      rw (has, take_exact_total item.len bytes enough)
          (e
            ∙ ap (λ (b : Bool). some (b, written))
                (or_assoc seen (item.type == 1) (any_cname items))),
      omega (arith, length-item frame bytes item enough),
    )

pub equal_self : (i : ℕ) → (i == i) ≡ true
equal_self i = ground arith

pub unequal : (i j : ℕ) → i < j → (j == i) ≡ false
unequal i j h = ground arith

-- The item at an index that is not ignored stays, and one that is does not hide those after it.
any_cname-kept :
    (ignored : Bool) (item : SdesItem) (items : List SdesItem)
    → any_cname items ≡ true
    → any_cname (if ignored then items else item ∷ items) ≡ true
unfolding any_cname
any_cname-kept true item items h = h
any_cname-kept false item items h = rw h (or_true (item.type == 1))
  where
    or_true : (b : Bool) → (b || true) ≡ true
    or_true true = refl
    or_true false = refl

any_cname-add_items :
    (to_ignore : List ℕ) (i : ℕ) (items : List SdesItem)
    → ((j : ℕ) → i ≤ j → is_ignored j to_ignore ≡ is_ignored j (find_invalid i items).0)
    → (find_invalid i items).1 ≡ true
    → any_cname (add_items to_ignore i items) ≡ true
unfolding find_invalid add_items is_ignored any_cname
any_cname-add_items to_ignore i [] same has = cc
any_cname-add_items to_ignore i (item ∷ items) same has = elim (Bool-cases (item.type == 0)) [
  | inl invalid ↦ any_cname-kept (is_ignored i to_ignore) item (add_items to_ignore (suc i) items) (
      any_cname-add_items to_ignore (suc i) items
        (λ j after. same j (omega arith) ∙ rw (invalid, unequal i j after) refl)
        (rw invalid at has))
  | inr valid ↦ elim (Bool-cases (item.type == 1)) [
    | inl named ↦ rw (same i (omega arith), valid, named) (rw named refl)
    | inr unnamed ↦
        any_cname-kept (is_ignored i to_ignore) item (add_items to_ignore (suc i) items) (
          any_cname-add_items to_ignore (suc i) items
            (λ j after. same j (omega arith) ∙ rw (valid, unnamed) refl)
            (rw (valid, unnamed) at has))
  ]
]

AllReadable-add_items :
    (to_ignore : List ℕ) (i : ℕ) (items : List SdesItem)
    → AllReadable items
    → AllReadable (add_items to_ignore i items)
unfolding add_items
AllReadable-add_items to_ignore i [] readable = tt
AllReadable-add_items to_ignore i (item ∷ items) (here, others) =
    put (is_ignored i to_ignore) (add_items to_ignore (suc i) items)
      (AllReadable-add_items to_ignore (suc i) items others)
  where
    put :
        (ignored : Bool) (rest : List SdesItem)
        → AllReadable rest
        → AllReadable (if ignored then rest else item ∷ rest)
    put true rest all = all
    put false rest all = (here, all)

octets_of-add_items :
    (to_ignore : List ℕ) (i : ℕ) (items : List SdesItem)
    → octets_of (add_items to_ignore i items) ≤ octets_of items
unfolding add_items item_lengths
octets_of-add_items to_ignore i [] = omega arith
octets_of-add_items to_ignore i (item ∷ items) =
    put (is_ignored i to_ignore) (add_items to_ignore (suc i) items)
      (octets_of-add_items to_ignore (suc i) items)
  where
    put :
        (ignored : Bool) (rest : List SdesItem)
        → octets_of rest ≤ octets_of items
        → octets_of (if ignored then rest else item ∷ rest) ≤ octets_of (item ∷ items)
    put true rest less = omega arith
    put false rest less = omega arith

-- Whatever the items are, those that are kept have a CNAME, can be read, and are none but the given.
pub set_sdes_items-Named :
    (cname_item : SdesItem) (items : List SdesItem) (r : Reporter)
    → cname_item.type ≡ 1
    → Readable cname_item
    → AllReadable items
    → (any_cname (set_sdes_items cname_item items r).our_items ≡ true)
      × AllReadable (set_sdes_items cname_item items r).our_items
      × (octets_of (set_sdes_items cname_item items r).our_items ≤ octets_of (cname_item ∷ items))
unfolding set_sdes_items any_cname item_lengths
set_sdes_items-Named cname_item items r is_cname here readable =
    let kept = AllReadable-add_items (find_invalid 0 items).0 0 items readable in
    let less = octets_of-add_items (find_invalid 0 items).0 0 items in
    elim (Bool-cases (find_invalid 0 items).1) [
      | inl has ↦ rw has (
        any_cname-add_items (find_invalid 0 items).0 0 items (λ j after. refl) has,
        kept,
        omega arith,
      )
      | inr misses ↦ rw (misses, is_cname) (refl, (here, kept), omega arith)
    ]

pub get_sdes_packet_size-words : (items : List SdesItem) → get_sdes_packet_size items % 4 ≡ 0
unfolding get_sdes_packet_size
get_sdes_packet_size-words items = omega arith

pub construct_sdes_chunk-octets :
    (frame : List ℕ) (chunk : SdesChunk)
    → AllReadable chunk.items
    → (written : List ℕ) × (construct_sdes_chunk frame chunk
        ≡ some (any_cname chunk.items, written))
      × (length written
          ≡ length frame
            + 4
            + octets_of chunk.items
            + (4 - (length frame + 4 + octets_of chunk.items) % 4))
unfolding construct_sdes_chunk construct_ssrc
construct_sdes_chunk-octets frame chunk readable =
    let start = frame ++ put32 chunk.ssrc in
    let (w, e, total) = construct_items-any_cname chunk.items start false readable in
    let before : length w ≡ length frame + 4 + octets_of chunk.items =
      omega (arith, length-append frame (put32 chunk.ssrc)) in
    (
      w ++ replicate (4 - length w % 4) 0,
      rw e refl,
      length-append w (replicate (4 - length w % 4) 0)
          ∙ ap (λ (k : ℕ). length w + k) (length-replicate (4 - length w % 4) 0)
          ∙ ap (λ (k : ℕ). k + (4 - k % 4)) before,
    )

-- A header of whole words that is short enough is written.
pub write_sdes-octets :
    (r : Reporter) (receivers : ℕ) (frame : List ℕ)
    → AllReadable r.our_items
    → octets_of r.our_items ≤ 65520
    → length frame % 4 ≡ 0
    → (written : List ℕ) × (write_sdes r receivers frame ≡ some (any_cname r.our_items, written))
      × (length written ≡ length frame + get_sdes_packet_size r.our_items)
unfolding write_sdes construct_rtcp_header get_sdes_packet_size
write_sdes-octets r receivers frame readable fits aligned =
    let words = get_sdes_packet_size-words r.our_items in
    let short : ltb 65535 (get_sdes_packet_size r.our_items) ≡ false = ground arith in
    let header : List ℕ =
      (bit_or 128 (receivers % 256) % 256)
      ∷ (frame_type_number sdes
          ∷ put16 ((get_sdes_packet_size r.our_items % 2 ^ 16 / 4 + 2 ^ 64 - 1) % 2 ^ 16)) in
    let (w, e, total) =
      construct_sdes_chunk-octets (frame ++ header) (record { ssrc = r.ssrc; items = r.our_items })
        readable in
    (w, rw (short, words) e, omega (arith, length-append frame header))

pub get_sdes_packet_size-le :
    (items : List SdesItem) → octets_of items ≤ 65520 → get_sdes_packet_size items ≤ 65535
unfolding get_sdes_packet_size
get_sdes_packet_size-le items h = omega arith
