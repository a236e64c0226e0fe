-- ===== src/Rtcp/Sdes.antt =====
-- src/rtcp.cc: send_sdes_packet(), which sets the items that all reports carry.
use uvg_rtp.Prelude.{◌==◌, if◌then◌else◌, ℕ, suc, Bool, true, false, ◌||◌, List, [], ◌∷◌}
use uvg_rtp.Util.{RtpError, ok, invalid_value}
use uvg_rtp.Rtcp.Packets.{SdesItem}
use uvg_rtp.Rtcp.Report.{Reporter}

-- `to_ignore` and `hasCname` of the first loop, which ends at a CNAME. `i` is the index of the first
-- of these items.
unfoldable pub find_invalid : ℕ → List SdesItem → List ℕ × Bool
find_invalid i [] = ([], false)
find_invalid i (item ∷ items) =
    let rest = find_invalid (suc i) items in
    if item.type == 0 then (i ∷ rest.0, rest.1) else if item.type == 1 then ([], true) else rest

unfoldable pub is_ignored : ℕ → List ℕ → Bool
is_ignored i [] = false
is_ignored i (j ∷ to_ignore) = i == j || is_ignored i to_ignore

unfoldable pub add_items : List ℕ → ℕ → List SdesItem → List SdesItem
unfolding is_ignored
add_items to_ignore i [] = []
add_items to_ignore i (item ∷ items) =
    let rest = add_items to_ignore (suc i) items in
    if is_ignored i to_ignore then rest else item ∷ rest

-- `cname_item` is the item that was made of the host's name.
unfoldable pub set_sdes_items : SdesItem → List SdesItem → Reporter → Reporter
unfolding find_invalid add_items
set_sdes_items cname_item items r =
    let (to_ignore, has_cname) = find_invalid 0 items in
    let kept = add_items to_ignore 0 items in
    record r { our_items = if has_cname then kept else cname_item ∷ kept }

unfoldable pub send_sdes_packet : SdesItem → List SdesItem → Reporter → RtpError × Reporter
unfolding set_sdes_items
send_sdes_packet cname_item [] r = (invalid_value, r)
send_sdes_packet cname_item (item ∷ items) r = (ok, set_sdes_items cname_item (item ∷ items) r)
