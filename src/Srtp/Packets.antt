-- ===== src/Srtp/Packets.antt =====
-- src/srtp/srtp.cc: a packet on its way to the socket, and a frame on its way from it.
use uvg_rtp.Prelude.{
  ℕ, ◌+◌, ◌-◌, ◌*◌, ◌%◌, ◌^◌, Bool, not, ◌&&◌, ◌||◌, Option, none, some, List, ◌++◌, ◌==◌, ltb,
  if◌then◌else◌, length, get_elem?, set, take, drop, read16, read32, ◌>>=◌, sub64, ◌≡◌,
}
use uvg_rtp.Util.{RtpError, ok, generic_error, pkt_modified, pkt_not_handled}
use uvg_rtp.Frame.{RtpFrame}
use uvg_rtp.FrameQueue.{concat}
use uvg_rtp.Srtp.Base.{Srtp, create_iv, is_replayed_packet, same_octets, le32}

-- The 64-bit packet index.
abbrev pub packet_index : ℕ → ℕ → ℕ
packet_index roc seq = roc * 65536 + seq

-- The rollover counter after a packet.
abbrev pub roll : ℕ → ℕ → ℕ
roll seq roc = if seq == 65535 then (roc + 1) % 2 ^ 32 else roc

-- A frame that is older than the rollover, of the frame that caused it.
unfoldable pub before_rollover : ℕ → ℕ → ℕ → Bool
before_rollover ts rts seq = ts == rts && ltb ((seq + 10000) % 65536) 10000

-- Crypto++: AES in counter mode with a key and a vector, and the ten octets that are kept of the
-- HMAC-SHA1 under a key.
pub record Crypto : Type 0 where
  pub ctr_encrypt : List ℕ → List ℕ → List ℕ → List ℕ
  pub ctr_decrypt : List ℕ → List ℕ → List ℕ → List ℕ
  pub hmac : List ℕ → List ℕ → List ℕ

-- What the code relies on: decryption undoes encryption under the same key and vector, a cipher text
-- is as long as its plain text, and a tag has ten octets.
pub record CryptoLaws (x : Crypto) : Type 0 where
  pub decrypts : (key iv m : List ℕ) → x.ctr_decrypt key iv (x.ctr_encrypt key iv m) ≡ m
  pub keeps_length : (key iv m : List ℕ) → length (x.ctr_encrypt key iv m) ≡ length m
  pub tag_length : (key m : List ℕ) → length (x.hmac key m) ≡ 10

module _ (x : Crypto) where
  unfoldable pub encrypt : ℕ → ℕ → List ℕ → Srtp → Srtp × List ℕ
  encrypt ssrc seq buffer s = if s.use_null_cipher then (s, buffer) else (
    record s { local_ctx = record s.local_ctx { roc = roll seq s.local_ctx.roc } },
    x.ctr_encrypt s.local_ctx.enc_key
        (create_iv ssrc (packet_index s.local_ctx.roc seq) s.local_ctx.salt_key) buffer,
  )

  -- The last buffer is the tag when packets are authenticated; the one before is the data. The tag is
  -- taken with the rollover counter that encryption has left.
  unfoldable pub send_packet_handler :
      Srtp → List (List ℕ) → Option (RtpError × Srtp × List (List ℕ))
  unfolding encrypt
  send_packet_handler s buffers = do
    header ← get_elem? buffers 0
    seq ← read16 header 2
    ssrc ← read32 header 8
    let off = if s.authenticate_rtp then 2 else 1
    plain ← (if ltb (length buffers) off then none else get_elem? buffers (length buffers - off))
    let (s', encrypted) = encrypt ssrc seq plain s
    let buffers' = set buffers (length buffers - off) encrypted
    let message = concat (take (length buffers - 1) buffers') ++ le32 s'.local_ctx.roc
    let tagged = set buffers' (length buffers - 1) (x.hmac s'.local_ctx.auth_key message)
    some (ok, s', if s.authenticate_rtp then tagged else buffers')

  -- The tag of a frame: what is computed of it, and what it carries.
  unfoldable pub computed_tag : Srtp → RtpFrame → List ℕ
  computed_tag s f =
      x.hmac s.remote_ctx.auth_key (take (length f.dgram - 10) f.dgram ++ le32 s.remote_ctx.roc)

  unfoldable pub carried_tag : RtpFrame → List ℕ
  carried_tag f = take 10 (drop (length f.dgram - 10) f.dgram)

  -- From the index on. The first `payload_len` octets of the payload are decrypted.
  unfoldable pub decrypt_frame : Srtp → RtpFrame → RtpError × Srtp × RtpFrame
  decrypt_frame s f =
      let ctx = s.remote_ctx in
      let seq = f.header.seq in
      let index =
        if before_rollover f.header.timestamp ctx.rts seq
        then packet_index (ctx.roc + 2 ^ 64 - 1) seq % 2 ^ 64
        else packet_index ctx.roc seq in
      let iv = create_iv f.header.ssrc index ctx.salt_key in
      (
        pkt_modified,
        record s {
          remote_ctx = record ctx {
            roc = roll seq ctx.roc;
            rts = if seq == 65535 then f.header.timestamp else ctx.rts;
          };
        },
        record f {
          payload =
              x.ctr_decrypt ctx.enc_key iv (take f.payload_len f.payload)
              ++ drop f.payload_len f.payload;
        },
      )

  unfoldable pub after_tag : Srtp → RtpFrame → RtpError × Srtp × RtpFrame
  after_tag s f = if s.use_null_cipher then (pkt_not_handled, s, f) else decrypt_frame s f

  unfoldable pub recv_packet_handler : Srtp → RtpFrame → RtpError × Srtp × RtpFrame
  unfolding same_octets
  recv_packet_handler s f =
      if ltb (length f.dgram) 12 || s.authenticate_rtp && ltb (length f.dgram) 22
      then (generic_error, s, f)
      else (if s.authenticate_rtp
          then (let digest = computed_tag s f in
              if not (same_octets digest (carried_tag f))
              then (generic_error, s, f)
              else (let (replayed, s') = is_replayed_packet digest s in
                  if replayed
                  then (generic_error, s', f)
                  else after_tag s' (record f { payload_len = sub64 f.payload_len 10 })))
          else after_tag s f)
