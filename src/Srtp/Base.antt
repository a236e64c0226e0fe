-- ===== src/Srtp/Base.antt =====
-- src/srtp/base.hh and src/srtp/base.cc: the contexts, the initialisation vector, the session keys and
-- the replay list. `memcpy` of an integer is in the order of a little-endian machine.
use uvg_rtp.Prelude.{
  ℕ, zero, suc, ◌/◌, ◌%◌, Bool, true, false, not, ◌&&◌, ◌||◌, List, [], ◌∷◌, ◌++◌, ◌==◌,
  if◌then◌else◌, get_or, take, drop, replicate, flag_set, bit_xor,
}
use uvg_rtp.Util.{
  rce_srtp_kmngmnt_zrtp, rce_srtp_null_cipher, rce_srtp_replay_protection, rce_srtp_keysize_192,
  rce_srtp_keysize_256,
}

-- The type of a context.
pub data SrtpType : Type 0 where
  srtp srtcp : SrtpType

-- struct srtp_ctx, without the fields that nothing reads (`enc`, `hmac`, the MKI, `mk_cnt`, `n_a`,
-- `s_l` and `replay`).
pub record SrtpCtx : Type 0 where
  pub master_key : List ℕ
  pub master_salt : List ℕ
  pub enc_key : List ℕ
  pub auth_key : List ℕ
  pub salt_key : List ℕ
  pub type : SrtpType
  pub roc : ℕ
  pub rts : ℕ
  pub n_e : ℕ
  pub rce_flags : ℕ

-- class base_srtp, with the member `authenticate_rtp_` of class srtp.
pub record Srtp : Type 0 where
  pub local_ctx : SrtpCtx
  pub remote_ctx : SrtpCtx
  pub use_null_cipher : Bool
  pub authenticate_rtp : Bool
  pub replay_list : List (List ℕ)

abbrev pub le32 : ℕ → List ℕ
le32 v = (v % 256) ∷ (v / 256 % 256) ∷ (v / 65536 % 256) ∷ (v / 16777216 % 256) ∷ []

-- Octet i of a 64-bit number.
abbrev pub octet64 : ℕ → ℕ → ℕ
octet64 v zero = v % 256
octet64 v (suc i) = octet64 (v / 256) i

-- The sixteen octets: the ssrc at 4, the index over it from 6 on, and the salt over the first 14.
unfoldable pub create_iv : ℕ → ℕ → List ℕ → List ℕ
create_iv ssrc index salt =
    let s = λ (out i : ℕ). bit_xor out (get_or salt i 0) in
    let x = λ (out i : ℕ). bit_xor out (octet64 index i) in
    s 0 0
    ∷ s 0 1
    ∷ s 0 2
    ∷ s 0 3
    ∷ s (ssrc % 256) 4
    ∷ s (ssrc / 256 % 256) 5
    ∷ s (x (ssrc / 65536 % 256) 0) 6
    ∷ s (x (ssrc / 16777216 % 256) 1) 7
    ∷ s (x 0 2) 8
    ∷ s (x 0 3) 9
    ∷ s (x 0 4) 10
    ∷ s (x 0 5) 11
    ∷ s (x 0 6) 12
    ∷ s (x 0 7) 13
    ∷ 0
    ∷ 0
    ∷ []

-- memcmp() of two arrays of one length.
unfoldable pub same_octets : List ℕ → List ℕ → Bool
same_octets [] [] = true
same_octets [] (b ∷ bs) = false
same_octets (a ∷ xs) [] = false
same_octets (a ∷ xs) (b ∷ bs) = a == b && same_octets xs bs

unfoldable pub digest_seen : List ℕ → List (List ℕ) → Bool
unfolding same_octets
digest_seen d [] = false
digest_seen d (e ∷ es) = same_octets d e || digest_seen d es

-- A digest is kept by its first eight octets.
unfoldable pub is_replayed_packet : List ℕ → Srtp → Bool × Srtp
unfolding digest_seen
is_replayed_packet digest s =
    let truncated = take 8 digest in
    if not (flag_set s.remote_ctx.rce_flags rce_srtp_replay_protection)
    then (false, s)
    else (if digest_seen truncated s.replay_list
        then (true, s)
        else (false, record s { replay_list = truncated ∷ s.replay_list }))

unfoldable pub get_key_size : ℕ → ℕ
get_key_size rce_flags =
    if not (flag_set rce_flags rce_srtp_kmngmnt_zrtp)
    then (if flag_set rce_flags rce_srtp_keysize_192
        then 24
        else (if flag_set rce_flags rce_srtp_keysize_256 then 32 else 16))
    else 16

-- Octet i of the block that is encrypted: the salt, with the label over octet 7, and two zeros.
unfoldable pub key_block : ℕ → List ℕ → List ℕ
key_block label salt =
    take 7 salt ++ (bit_xor (get_or salt 7 0) label ∷ (take 6 (drop 8 salt) ++ (0 ∷ 0 ∷ [])))

-- `ecb key block` is AES in ECB mode on one block. One block is encrypted, whatever `out_len` is: the
-- rest of the 32 octets that are copied from stays zero.
unfoldable pub derive_key : (List ℕ → List ℕ → List ℕ) → ℕ → List ℕ → List ℕ → ℕ → List ℕ
derive_key ecb label key salt out_len =
    take out_len (ecb key (key_block label salt) ++ replicate 16 0)

abbrev pub label_enc : SrtpType → ℕ
label_enc srtp = 0
label_enc srtcp = 3

abbrev pub label_auth : SrtpType → ℕ
label_auth srtp = 1
label_auth srtcp = 4

abbrev pub label_salt : SrtpType → ℕ
label_salt srtp = 2
label_salt srtcp = 5

unfoldable pub init_srtp_context :
    (List ℕ → List ℕ → List ℕ) → SrtpType → ℕ → List ℕ → List ℕ → SrtpCtx
init_srtp_context ecb type rce_flags key salt =
    let key_size = get_key_size rce_flags in
    let master_key = take key_size key in
    let master_salt = take 14 salt in
    record {
      master_key = master_key;
      master_salt = master_salt;
      enc_key = derive_key ecb (label_enc type) master_key master_salt key_size;
      auth_key = derive_key ecb (label_auth type) master_key master_salt 20;
      salt_key = derive_key ecb (label_salt type) master_key master_salt 14;
      type = type;
      roc = 0;
      rts = 0;
      n_e = key_size;
      rce_flags = rce_flags;
    }

-- init() with keys and salts that are not null.
unfoldable pub init_srtp :
    (List ℕ → List ℕ → List ℕ) → SrtpType → ℕ → Bool → List ℕ → List ℕ → List ℕ → List ℕ → Srtp
init_srtp ecb type rce_flags authenticate local_key remote_key local_salt remote_salt = record {
  local_ctx = init_srtp_context ecb type rce_flags local_key local_salt;
  remote_ctx = init_srtp_context ecb type rce_flags remote_key remote_salt;
  use_null_cipher = flag_set rce_flags rce_srtp_null_cipher;
  authenticate_rtp = authenticate;
  replay_list = [];
}
