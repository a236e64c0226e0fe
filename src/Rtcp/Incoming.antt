-- ===== src/Rtcp/Incoming.antt =====
-- src/rtcp.cc: handle_incoming_packet() and the handlers of the packets of a compound packet.
use uvg_rtp.Prelude.{
  if◌then◌else◌, ◌>>=◌, lookup, insert, erase, ℕ, suc, ◌+◌, ◌-◌, ◌*◌, ◌/◌, ◌%◌, Bool, true, false,
  Option, none, some, List, [], ◌∷◌, ◌++◌,
}
use uvg_rtp.Util.{RtpError, ok}
use uvg_rtp.Rtcp.Packets.{SdesChunk}
use uvg_rtp.Rtcp.Read.{
  RtcpHeader, ReportBlock, SenderInfo, read_reports, read_ssrc, read_sender_info, read_chunks,
  read_app, read_bye,
}
use uvg_rtp.Rtcp.Participants.{Rtcp, is_participant, add_initial_participant, add_participant}

-- struct rtcp_receiver_report and its kin.
pub record ReceiverReport : Type 0 where
  pub header : RtcpHeader
  pub ssrc : ℕ
  pub report_blocks : List ReportBlock

pub record SenderReport : Type 0 where
  pub header : RtcpHeader
  pub ssrc : ℕ
  pub sender_info : SenderInfo
  pub report_blocks : List ReportBlock

pub record SdesPacket : Type 0 where
  pub header : RtcpHeader
  pub chunks : List SdesChunk

pub record AppPacket : Type 0 where
  pub header : RtcpHeader
  pub ssrc : ℕ
  pub name : List ℕ
  pub payload_len : ℕ
  pub payload : List ℕ

-- The other fields of a feedback packet are never set.
pub record FbPacket : Type 0 where
  pub header : RtcpHeader
  pub sender_ssrc : ℕ

-- What a hook of the user is called with.
pub data ControlFrame : Type 0 where
  receiver_report : ReceiverReport → ControlFrame
  sender_report : SenderReport → ControlFrame
  sdes_packet : SdesPacket → ControlFrame
  app_packet : AppPacket → ControlFrame
  fb_packet : FbPacket → ControlFrame

-- The frames of struct rtcp_participant.
pub record LastFrames : Type 0 where
  pub rr_frame : Option ReceiverReport
  pub sr_frame : Option SenderReport
  pub sdes_frame : Option SdesPacket
  pub app_frame : Option AppPacket

unfoldable pub no_frames : LastFrames
no_frames = record { rr_frame = none; sr_frame = none; sdes_frame = none; app_frame = none }

-- The members of class rtcp that control packets change. `handed` is what the hooks were called with,
-- the newest last; each flag says whether a hook of that kind is installed.
pub record Control : Type 0 where
  pub rtcp : Rtcp
  pub last_frames : List (ℕ × LastFrames)
  pub handed : List ControlFrame
  pub rr_hook : Bool
  pub sr_hook : Bool
  pub sdes_hook : Bool
  pub app_hook : Bool
  pub fb_hook : Bool
  pub rtcp_pkt_count : ℕ
  pub rtcp_byte_count : ℕ
  pub avg_rtcp_pkt_size : ℕ
  pub avg_rtcp_size : ℕ

-- The sizes of the UDP and the IPv4 header are added.
unfoldable pub update_rtcp_bandwidth : ℕ → Control → Control
update_rtcp_bandwidth pkt_size c =
    let count = c.rtcp_pkt_count + 1 in
    let bytes = c.rtcp_byte_count + pkt_size + 8 + 20 in
    record c { rtcp_pkt_count = count; rtcp_byte_count = bytes; avg_rtcp_pkt_size = bytes / count }

-- In doubles, which are exact here as long as fifteen times the average is below 2^53.
unfoldable pub update_avg_rtcp_size : ℕ → Control → Control
update_avg_rtcp_size packet_size c = record c {
  avg_rtcp_size = (packet_size + 15 * c.avg_rtcp_size) / 16;
}

unfoldable pub is_ok : RtpError → Bool
is_ok ok = true
is_ok ret = false

-- add_participant(), of which the callers here do not look at the result. A new entry has no frames.
unfoldable pub see_participant : ℕ → Control → Control
see_participant ssrc c =
    if is_participant ssrc c.rtcp
    then c
    else (let added = add_participant ssrc c.rtcp in
        record c {
          rtcp = added.1;
          last_frames =
              if is_ok added.0 then insert ssrc no_frames c.last_frames else c.last_frames;
        })

-- `participants_[ssrc]->..._frame = frame`: without an entry, a null pointer is used.
unfoldable pub store_frame : ℕ → (LastFrames → LastFrames) → Control → Option Control
store_frame ssrc change c =
    if is_participant ssrc c.rtcp
    then some (record c {
      last_frames =
          insert ssrc (change (elim (lookup ssrc c.last_frames) [ none ↦ no_frames | some l ↦ l ]))
            c.last_frames;
    })
    else none

-- A frame goes to the hook, or else to the participant.
unfoldable pub keep_frame :
    Bool → ControlFrame → ℕ → (LastFrames → LastFrames) → Control → Option (RtpError × Control)
keep_frame hooked frame ssrc change c =
    if hooked
    then some (ok, record c { handed = c.handed ++ (frame ∷ []) })
    else (do c' ← store_frame ssrc change c; some (ok, c'))

unfoldable pub handle_receiver_report_packet :
    List ℕ → ℕ → ℕ → RtcpHeader → Control → Option (RtpError × Control)
handle_receiver_report_packet buffer read_ptr packet_end header c = do
  (ssrc, p) ← read_ssrc buffer read_ptr
  let c' =
      if is_participant ssrc c.rtcp
      then c
      else see_participant ssrc
          (record c { rtcp = add_initial_participant c.rtcp.clock_rate c.rtcp })
  (blocks, end) ← read_reports buffer p packet_end header.count
  let frame : ReceiverReport = record { header = header; ssrc = ssrc; report_blocks = blocks }
  keep_frame c'.rr_hook (receiver_report frame) ssrc (λ l. record l { rr_frame = some frame }) c'

-- The middle of the NTP time stamp; the entry's statistics are written without a look at the entry.
unfoldable pub set_lsr : ℕ → SenderInfo → Control → Option Control
set_lsr ssrc info c = do
  p ← lookup ssrc c.rtcp.participants
  let lsr = info.ntp_msw % 65536 * 65536 + info.ntp_lsw / 65536
  some (record c {
    rtcp = record c.rtcp {
      participants =
          insert ssrc (record p { stats = record p.stats { lsr = lsr } }) c.rtcp.participants;
    };
  })

unfoldable pub handle_sender_report_packet :
    List ℕ → ℕ → ℕ → RtcpHeader → Control → Option (RtpError × Control)
handle_sender_report_packet buffer read_ptr packet_end header c = do
  (ssrc, p) ← read_ssrc buffer read_ptr
  (info, q) ← read_sender_info buffer p
  c' ← set_lsr ssrc info (see_participant ssrc c)
  (blocks, end) ← read_reports buffer q packet_end header.count
  let frame : SenderReport = record {
    header = header;
    ssrc = ssrc;
    sender_info = info;
    report_blocks = blocks;
  }
  keep_frame c'.sr_hook (sender_report frame) ssrc (λ l. record l { sr_frame = some frame }) c'

unfoldable pub handle_sdes_packet :
    List ℕ → ℕ → ℕ → RtcpHeader → ℕ → Control → Option (RtpError × Control)
handle_sdes_packet packet read_ptr packet_end header sender_ssrc c = do
  (chunks, end) ← read_chunks (suc packet_end) packet read_ptr packet_end
  let c' = see_participant sender_ssrc c
  let frame : SdesPacket = record { header = header; chunks = chunks }
  keep_frame c'.sdes_hook (sdes_packet frame) sender_ssrc
      (λ l. record l { sdes_frame = some frame }) c'

-- One sender that leaves.
unfoldable pub remove_participant : ℕ → Control → Control
remove_participant ssrc c =
    if is_participant ssrc c.rtcp
    then record c {
      rtcp = record c.rtcp {
        participants = erase ssrc c.rtcp.participants;
        ms_since_last_rep = erase ssrc c.rtcp.ms_since_last_rep;
      };
      last_frames = erase ssrc c.last_frames;
    }
    else c

unfoldable pub remove_participants : List ℕ → Control → Control
remove_participants [] c = c
remove_participants (ssrc ∷ ssrcs) c = remove_participants ssrcs (remove_participant ssrc c)

unfoldable pub handle_bye_packet : List ℕ → ℕ → RtcpHeader → Control → Option (RtpError × Control)
handle_bye_packet packet read_ptr header c = do
  (ssrcs, end) ← read_bye packet read_ptr header.count
  let c' = remove_participants ssrcs c
  some (ok, record c' { rtcp = record c'.rtcp { members = c'.rtcp.members - 1 } })

unfoldable pub handle_app_packet :
    List ℕ → ℕ → ℕ → RtcpHeader → Control → Option (RtpError × Control)
handle_app_packet packet read_ptr packet_end header c = do
  (ssrc, p) ← read_ssrc packet read_ptr
  (name, payload, payload_len) ← read_app packet p packet_end
  let c' = see_participant ssrc c
  let frame : AppPacket = record {
    header = header;
    ssrc = ssrc;
    name = name;
    payload_len = payload_len;
    payload = payload;
  }
  keep_frame c'.app_hook (app_packet frame) ssrc (λ l. record l { app_frame = some frame }) c'

-- Without a hook the frame is dropped.
unfoldable pub handle_fb_packet : List ℕ → ℕ → RtcpHeader → Control → Option (RtpError × Control)
handle_fb_packet packet read_ptr header c = do
  (ssrc, p) ← read_ssrc packet read_ptr
  let c' = see_participant ssrc c
  let frame : FbPacket = record { header = header; sender_ssrc = ssrc }
  some (ok, if c'.fb_hook then record c' { handed = c'.handed ++ (fb_packet frame ∷ []) } else c')
