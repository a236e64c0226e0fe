-- ===== src/Rtcp/Carried.antt =====
-- src/rtcp.cc and src/rtcp_packets.cc: the SDES packet with the items that send_sdes_packet() has set.
use uvg_rtp.Prelude.{
  take, replicate, put16, put32, ℕ, ◌+◌, ◌-◌, ◌/◌, ◌%◌, Option, none, some, List, [], ◌∷◌, ◌++◌,
}
use uvg_rtp.Rtcp.Packets.{SdesItem}
use uvg_rtp.Rtcp.Named.{octets_of}

abbrev pub data_of : Option (List ℕ) → List ℕ
data_of none = []
data_of (some bytes) = bytes

abbrev pub item_bytes : List SdesItem → List ℕ
item_bytes [] = []
item_bytes (item ∷ items) =
    item.type ∷ (item.len ∷ (take item.len (data_of item.bytes) ++ item_bytes items))

-- The SDES packet of RFC 3550, section 6.5, with one chunk: the count, the type, the length in words less
-- one, the chunk's SSRC and items, and one to four zero octets.
abbrev pub sdes_packet : ℕ → ℕ → List SdesItem → List ℕ
sdes_packet count ssrc items =
    (128 + count)
    ∷ (202
        ∷ (put16 (octets_of items / 4 + 2)
            ++ (put32 ssrc ++ (item_bytes items ++ replicate (4 - octets_of items % 4) 0))))
