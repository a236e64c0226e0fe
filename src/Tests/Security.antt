-- ===== src/Tests/Security.antt =====
-- The theorems on SRTP, at concrete inputs and with stand-ins for the ciphers.
use uvg_rtp.Prelude.{
  length, get_or, take, replicate, read16, read32, flag_set, ℕ, suc, ◌+◌, ◌-◌, ◌≡◌, refl, ap, ◌≢◌,
  true, false, none, some, List, [], ◌∷◌, ◌++◌, arith,
}
use uvg_rtp.Frame.{RtpFrame, alloc_rtp_frame}
use uvg_rtp.Srtp.Base.{Srtp, SrtpCtx, srtp, create_iv, init_srtp_context}
use uvg_rtp.Srtp.Packets.{
  Crypto, CryptoLaws, send_packet_handler, recv_packet_handler, before_rollover,
}
use uvg_rtp.Srtp.RoundTrip.{SameContext, FrameOf, recv_packet_handler-send_packet_handler}
use uvg_rtp.Srtp.Rollover.{recv_packet_handler_rollover}
use uvg_rtp.Util.{ok, generic_error, pkt_modified, rce_srtp}
use uvg_rtp.Srtp.Control.{handle_rtcp_encryption, handle_rtcp_decryption}
use uvg_rtp.Srtp.ControlTrip.{
  handle_rtcp_decryption-handle_rtcp_encryption, handle_rtcp_decryption_overrun,
}
use uvg_rtp.Srtp.Iv.{create_iv_distinct}
use uvg_rtp.Srtp.Keys.{init_srtp_context_weak}

abbrev total : List ℕ → ℕ
total [] = 0
total (b ∷ bs) = b + total bs

abbrev shift_up : List ℕ → List ℕ
shift_up [] = []
shift_up (b ∷ bs) = suc b ∷ shift_up bs

abbrev shift_down : List ℕ → List ℕ
shift_down [] = []
shift_down (b ∷ bs) = (b - 1) ∷ shift_down bs

-- Adds one to each octet, and tags with the sum of the octets.
abbrev pub toy : Crypto
toy = record {
  ctr_encrypt = λ key iv m. shift_up m;
  ctr_decrypt = λ key iv m. shift_down m;
  hmac = λ key m. total m ∷ replicate 9 0;
}

shift_down-shift_up : (m : List ℕ) → shift_down (shift_up m) ≡ m
shift_down-shift_up [] = refl
shift_down-shift_up (b ∷ m) =
    let e : suc b - 1 ≡ b = omega arith in λ i. e i ∷ shift_down-shift_up m i

length-shift_up : (m : List ℕ) → length (shift_up m) ≡ length m
length-shift_up [] = refl
length-shift_up (b ∷ m) = ap suc (length-shift_up m)

toy-CryptoLaws : CryptoLaws toy
toy-CryptoLaws = record {
  decrypts = λ key iv m. shift_down-shift_up m;
  keeps_length = λ key iv m. length-shift_up m;
  tag_length = λ key m. refl;
}

abbrev context : SrtpCtx
context = record {
  master_key = [];
  master_salt = [];
  enc_key = 1 ∷ [];
  auth_key = 2 ∷ [];
  salt_key = 3 ∷ [];
  type = srtp;
  roc = 7;
  rts = 0;
  n_e = 16;
  rce_flags = 0;
}

abbrev pub both_ends : Srtp
both_ends = record {
  local_ctx = context;
  remote_ctx = context;
  use_null_cipher = false;
  authenticate_rtp = true;
  replay_list = [];
}

both_ends-SameContext : SameContext both_ends both_ends
unfolding flag_set
both_ends-SameContext = record {
  same_enc_key = refl;
  same_auth_key = refl;
  same_salt_key = refl;
  same_roc = refl;
  sender_encrypts = refl;
  receiver_decrypts = refl;
  sender_tags = refl;
  receiver_checks = refl;
  no_replay_check = refl;
}

abbrev header : ℕ → ℕ → List ℕ
header high low = 128 ∷ 96 ∷ high ∷ low ∷ 0 ∷ 0 ∷ 0 ∷ 1 ∷ 0 ∷ 0 ∷ 0 ∷ 9 ∷ []

abbrev received : RtpFrame
received = record alloc_rtp_frame {
  header = record alloc_rtp_frame.header { seq = 258; ssrc = 9; timestamp = 1 };
  payload_len = 12;
  payload = 201 ∷ (202 ∷ (647 ∷ replicate 9 0));
  dgram = header 1 2 ++ (201 ∷ (202 ∷ (647 ∷ replicate 9 0)));
}

recv_packet_handler-send_packet_handler_example :
    (s' : Srtp) × (c tag : List ℕ) × (send_packet_handler toy both_ends
        (header 1 2 ∷ (200 ∷ 201 ∷ []) ∷ replicate 10 0 ∷ [])
      ≡ some (ok, s', header 1 2 ∷ c ∷ tag ∷ []))
    × (FrameOf (header 1 2 ++ (c ++ tag)) 258 9 1 received
        → (t' : Srtp) × (f' : RtpFrame) × (recv_packet_handler toy both_ends received
            ≡ (pkt_modified, t', f'))
          × (take f'.payload_len f'.payload ≡ 200 ∷ 201 ∷ [])
          × (t'.remote_ctx.roc ≡ s'.local_ctx.roc))
unfolding read16 read32 before_rollover
recv_packet_handler-send_packet_handler_example =
    recv_packet_handler-send_packet_handler toy toy-CryptoLaws both_ends both_ends 258 9 1
      (header 1 2) (200 ∷ 201 ∷ []) (replicate 10 0) received both_ends-SameContext refl
      (omega arith) refl refl (omega arith) refl

recv_packet_handler_rollover_example :
    (s' : Srtp) × (c tag : List ℕ) × (send_packet_handler toy both_ends
        (header 255 255 ∷ (200 ∷ []) ∷ replicate 10 0 ∷ [])
      ≡ some (ok, s', header 255 255 ∷ c ∷ tag ∷ []))
    × (s'.local_ctx.roc ≡ 8)
    × (FrameOf (header 255 255 ++ (c ++ tag)) 65535 9 1 received
        → recv_packet_handler toy both_ends received ≡ (generic_error, both_ends, received))
unfolding read16 read32
recv_packet_handler_rollover_example =
    recv_packet_handler_rollover toy toy-CryptoLaws both_ends both_ends 9 1 (header 255 255)
      (200 ∷ []) (replicate 10 0) received both_ends-SameContext refl refl refl
      (λ e. omega (arith, ap (λ (xs : List ℕ). get_or xs 0 0) e))

create_iv_distinct_example : create_iv 9 65535 (3 ∷ []) ≢ create_iv 9 65536 (3 ∷ [])
create_iv_distinct_example =
    create_iv_distinct 9 65535 65536 (3 ∷ []) (omega arith) (omega arith) (omega arith)

init_srtp_context_weak_example :
    (block : List ℕ) × (length block ≡ 16)
    × ((init_srtp_context
          (λ key m. replicate 16 5)
          srtp
          65536
          (replicate 32 1)
          (replicate 14 2)).enc_key
        ≡ block ++ replicate 16 0)
unfolding flag_set
init_srtp_context_weak_example =
    init_srtp_context_weak (λ key m. replicate 16 5) srtp 65536 (replicate 32 1) (replicate 14 2)
      (λ k m. refl) refl refl refl

abbrev control_head : List ℕ
control_head = 128 ∷ 200 ∷ 0 ∷ 6 ∷ 0 ∷ 0 ∷ 0 ∷ 9 ∷ []

handle_rtcp_decryption-handle_rtcp_encryption_example :
    (packet trailer : List ℕ) × (handle_rtcp_encryption toy rce_srtp 5 9
        (control_head ++ ((1 ∷ 2 ∷ 3 ∷ 4 ∷ []) ++ replicate 14 0))
        both_ends
      ≡ some (ok, packet))
    × (handle_rtcp_decryption toy rce_srtp 9 packet (length packet) both_ends
        ≡ some (ok, control_head ++ ((1 ∷ 2 ∷ 3 ∷ 4 ∷ []) ++ trailer), both_ends))
    × (length trailer ≡ 14)
unfolding flag_set
handle_rtcp_decryption-handle_rtcp_encryption_example =
    handle_rtcp_decryption-handle_rtcp_encryption toy toy-CryptoLaws both_ends both_ends
      both_ends-SameContext rce_srtp 9 5 control_head (1 ∷ 2 ∷ 3 ∷ 4 ∷ []) (replicate 14 0) refl
      refl refl refl (omega arith) (omega arith)

handle_rtcp_decryption_overrun_example :
    handle_rtcp_decryption toy rce_srtp 9 (replicate 14 0) 22 both_ends ≡ none
unfolding flag_set
handle_rtcp_decryption_overrun_example =
    handle_rtcp_decryption_overrun toy rce_srtp 9 (control_head ++ replicate 14 0) both_ends refl
      (omega arith) (omega arith)
