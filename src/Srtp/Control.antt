-- ===== src/Srtp/Control.antt =====
-- src/srtp/srtcp.cc: the protection of control packets. The last fourteen octets of a packet are the
-- index and the tag. A packet is the list of the octets from a pointer on.
use uvg_rtp.Prelude.{
  ltb, ◌==◌, if◌then◌else◌, length, get_elem?, take, drop, ◌>>=◌, be32, take_exact, sub64, flag_set,
  ℕ, ◌+◌, ◌-◌, ◌/◌, ◌%◌, ◌^◌, bit_or, Bool, false, not, ◌&&◌, Option, none, some, List, ◌++◌,
}
use uvg_rtp.Util.{RtpError, ok, auth_tag_mismatch, rce_srtp, rce_srtp_null_cipher}
use uvg_rtp.Srtp.Base.{Srtp, create_iv, is_replayed_packet, same_octets, le32}
use uvg_rtp.Srtp.Packets.{Crypto}

-- `*(uint32_t *)&p[i]`, without a change of the order of octets.
unfoldable pub read_le32 : List ℕ → ℕ → Option ℕ
read_le32 p i = do
  a ← get_elem? p i
  b ← get_elem? p (i + 1)
  c ← get_elem? p (i + 2)
  d ← get_elem? p (i + 3)
  some (be32 d c b a)

-- The octets from 8 on, up to the index, replaced.
unfoldable pub replace_body : List ℕ → (List ℕ → List ℕ) → List ℕ
replace_body packet f =
    let n = length packet in
    take 8 packet ++ (f (drop 8 (take (n - 14) packet)) ++ drop (n - 14) packet)

unfoldable pub set_index : List ℕ → ℕ → List ℕ
set_index frame word =
    let n = length frame in take (n - 14) frame ++ (le32 word ++ drop (n - 10) frame)

module _ (x : Crypto) where
  unfoldable pub encrypt_control : ℕ → ℕ → Srtp → List ℕ → List ℕ
  encrypt_control ssrc seq s buffer =
      if s.use_null_cipher
      then buffer
      else x.ctr_encrypt s.local_ctx.enc_key (create_iv ssrc seq s.local_ctx.salt_key) buffer

  unfoldable pub add_auth_tag : Srtp → List ℕ → List ℕ
  add_auth_tag s buffer =
      let message = take (length buffer - 10) buffer in
      message ++ x.hmac s.local_ctx.auth_key (message ++ le32 s.local_ctx.roc)

  -- A frame without room for the index and the tag is written before its start; the length of what is
  -- encrypted wraps if there is no room for the eight octets before it.
  unfoldable pub handle_rtcp_encryption : ℕ → ℕ → ℕ → List ℕ → Srtp → Option (RtpError × List ℕ)
  handle_rtcp_encryption rce_flags packet_number ssrc frame s =
      if not (flag_set rce_flags rce_srtp)
      then some (ok, frame)
      else if ltb (length frame) (if flag_set rce_flags rce_srtp_null_cipher then 14 else 22)
      then none
      else if flag_set rce_flags rce_srtp_null_cipher
      then some (ok, add_auth_tag s (set_index frame packet_number))
      else some (
        ok,
        add_auth_tag s (
            set_index (replace_body frame (encrypt_control ssrc packet_number s))
              (bit_or (2 ^ 31) packet_number)),
      )

  -- The error code, and the list of digests with this one; every failure is the same to the caller.
  unfoldable pub verify_auth_tag : Srtp → List ℕ → ℕ → Option (Bool × Srtp)
  verify_auth_tag s buffer len = do
    message ← take_exact (sub64 len 10) buffer
    carried ← take_exact 10 (drop (sub64 len 10) buffer)
    let digest = x.hmac s.remote_ctx.auth_key (message ++ le32 s.remote_ctx.roc)
    if not (same_octets digest carried)
        then some (false, s)
        else (let seen = is_replayed_packet digest s in some (not seen.0, seen.1))

  unfoldable pub decrypt_control : ℕ → ℕ → Srtp → List ℕ → List ℕ
  decrypt_control ssrc seq s buffer =
      x.ctr_decrypt s.remote_ctx.enc_key (create_iv ssrc seq s.remote_ctx.salt_key) buffer

  -- `packet_size` is what the caller says of the packet's size.
  unfoldable pub handle_rtcp_decryption :
      ℕ → ℕ → List ℕ → ℕ → Srtp → Option (RtpError × List ℕ × Srtp)
  handle_rtcp_decryption rce_flags ssrc packet packet_size s = do
    srtpi ← read_le32 packet (sub64 packet_size 14)
    if not (flag_set rce_flags rce_srtp) then some (ok, packet, s) else (do
      verified ← verify_auth_tag s packet packet_size
      if not verified.0
          then some (auth_tag_mismatch, packet, verified.1)
          else if (srtpi / 2 ^ 31 % 2 == 1) && not (flag_set rce_flags rce_srtp_null_cipher)
          then (if ltb packet_size 22
              then none
              else some (
                ok,
                replace_body (take packet_size packet)
                      (decrypt_control ssrc (srtpi % 2 ^ 31) verified.1)
                    ++ drop packet_size packet,
                verified.1,
              ))
          else some (ok, packet, verified.1))
